-- ===== src/Database/Statements.antt =====
-- The SQL statements of server/dbmanager.cpp and what SQL gives them to mean.
use easysync.Prelude.{
  ℕ, ℤ, minus_one, int_eq, Bool, true, false, not, ◌&&◌, Option, none, some, List, [], ◌∷◌, ◌++◌,
  map, filter, ◌==◌, if◌then◌else◌,
}
use easysync.Text.{Text, text_eq, codes}
use easysync.Database.Schema.{
  User, Host, Tables, Row, table_row, username_row, must_sync_row, client_row, user_rows, host_rows,
  exists, has_name, user_id_of, fresh_user_id, fresh_host_id,
}

pub data Statement : Type 0 where
  -- SELECT name FROM sqlite_master WHERE type='table' AND name='users'
  select_users_table : Statement
  -- create table users (…); drop table hosts; create table hosts (…)
  create_users drop_hosts create_hosts : Statement
  -- UPDATE hosts SET socket_id = -1 WHERE hostname = :hostname
  void_socket : Text → Statement
  -- UPDATE hosts SET must_sync = 1 WHERE hostname != :hostname
  --   AND user_id = (SELECT id from users WHERE username = '…')
  mark_others : Text → Text → Statement
  -- INSERT INTO users (id, username) VALUES(null, :username)
  insert_user : Text → Statement
  -- SELECT username FROM users WHERE username='…'
  select_username : Text → Statement
  -- SELECT socket_id, hostname FROM hosts, users WHERE must_sync = '1' AND socket_id != '-1'
  --   AND users.id = (SELECT id FROM users WHERE username = '…')
  select_clients : Text → Statement
  -- UPDATE hosts SET must_sync = 0 WHERE hostname = :hostname
  clear_sync : Text → Statement
  -- SELECT must_sync FROM hosts WHERE hostname = '…' AND must_sync = '1'
  select_must_sync : Text → Statement
  -- SELECT users.username FROM users, hosts WHERE username= '…' AND hostname = '…'
  select_registered : Text → Text → Statement
  -- INSERT INTO hosts (id, user_id, hostname, must_sync)
  --   VALUES(null, (SELECT id FROM users WHERE username = :username), :hostname, 1)
  insert_host : Text → Text → Statement
  -- UPDATE hosts SET socket_id = :socket_id WHERE hostname = :hostname
  assign_socket : ℤ → Text → Statement

-- The table that a statement needs is there, and no constraint refuses it.
unfoldable pub valid : Statement → Tables → Bool
valid select_users_table t = true
valid create_users t = not (exists t.users)
valid drop_hosts t = exists t.hosts
valid create_hosts t = not (exists t.hosts)
valid (void_socket h) t = exists t.hosts
valid (mark_others h n) t = exists t.users && exists t.hosts
valid (insert_user n) t = exists t.users
valid (select_username n) t = exists t.users
valid (select_clients n) t = exists t.users && exists t.hosts
valid (clear_sync h) t = exists t.hosts
valid (select_must_sync h) t = exists t.hosts
valid (select_registered n h) t = exists t.users && exists t.hosts
valid (insert_host n h) t = exists t.users && exists t.hosts && exists (user_id_of n (user_rows t))
valid (assign_socket i h) t = exists t.hosts

abbrev pub is_host : Text → Host → Bool
is_host h r = text_eq r.hostname h

-- `user_id = (SELECT …)`, which no row meets where the subquery is empty.
abbrev pub owned_by : Option ℕ → ℕ → Bool
owned_by none i = false
owned_by (some k) i = i == k

abbrev pub update_hosts : (Host → Bool) → (Host → Host) → Tables → Tables
update_hosts where_ set_ t = record t {
  hosts = some (map (λ r. if where_ r then set_ r else r) (host_rows t));
}

abbrev pub new_user : Text → List User → User
new_user n us = record { id = fresh_user_id us; username = n }

-- `socket_id` defaults to -1.
abbrev pub new_host : Option ℕ → Text → List Host → List Host
new_host none h hs = []
new_host (some k) h hs =
    record {
      id = fresh_host_id hs;
      user_id = k;
      must_sync = 1;
      hostname = h;
      socket_id = minus_one;
    }
    ∷ []

-- The tables after a statement that is carried out.
unfoldable pub updated : Statement → Tables → Tables
updated create_users t = record t { users = some [] }
updated drop_hosts t = record t { hosts = none }
updated create_hosts t = record t { hosts = some [] }
updated (void_socket h) t = update_hosts (is_host h) (λ r. record r { socket_id = minus_one }) t
updated (mark_others h n) t =
    update_hosts (λ r. not (is_host h r) && owned_by (user_id_of n (user_rows t)) r.user_id)
      (λ r. record r { must_sync = 1 }) t
updated (insert_user n) t = record t { users = some (user_rows t ++ new_user n (user_rows t) ∷ []) }
updated (clear_sync h) t = update_hosts (is_host h) (λ r. record r { must_sync = 0 }) t
updated (insert_host n h) t = record t {
  hosts = some (host_rows t ++ new_host (user_id_of n (user_rows t)) h (host_rows t));
}
updated (assign_socket i h) t = update_hosts (is_host h) (λ r. record r { socket_id = i }) t
updated _ t = t

-- `FROM xs, ys`: every pair.
abbrev pub cross {ℓ} : {A B C : Type ℓ} → (A → B → C) → List A → List B → List C
cross f [] ys = []
cross f (x ∷ xs) ys = map (f x) ys ++ cross f xs ys

abbrev pub is_due : Host → Bool
is_due r = r.must_sync == 1 && not (int_eq r.socket_id minus_one)

-- The rows of a statement that is carried out.
unfoldable pub answer : Statement → Tables → List Row
answer select_users_table t = if exists t.users then table_row (codes "users") ∷ [] else []
answer (select_username n) t =
    map (λ r. username_row r.username) (filter (has_name n) (user_rows t))
answer (select_clients n) t =
    cross (λ h r. client_row h.socket_id h.hostname) (filter is_due (host_rows t))
      (filter (λ r. owned_by (user_id_of n (user_rows t)) r.id) (user_rows t))
answer (select_must_sync h) t =
    map (λ r. must_sync_row r.must_sync)
      (filter (λ r. is_host h r && r.must_sync == 1) (host_rows t))
answer (select_registered n h) t =
    cross (λ r s. username_row r.username) (filter (has_name n) (user_rows t))
      (filter (is_host h) (host_rows t))
answer _ t = []
