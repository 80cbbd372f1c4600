-- ===== src/Server/Registration.antt =====
-- Message 1 of server/easysyncserver.cpp, from the bytes of a greeting to the row of the host.
use easysync.Prelude.{
  ℕ, ℤ, minus_one, ◌≡◌, Bool, true, false, not, ◌&&◌, some, List, [], ◌∷◌, ◌++◌, ◌==◌, ap, ◌∙◌, sym,
  arith, any, any-map, if◌then◌else◌, Bool-cases, inl, inr, fun_ext, append-nil,
}
use easysync.Text.{Text, codes}
use easysync.Text.Format.{NoPercent}
use easysync.Text.Scan.{Unicode, IsName}
use easysync.Database.Schema.{Host, rows_of, exists}
use easysync.Database.Statements.{is_host}
use easysync.Database.Engine.{Engine, IsReliable}
use easysync.DbManager.{DbManager, is_connected, is_user_valid, add_hostname, is_sync_needed}
use easysync.DbManager.Quote.{sql_quote, has_quote}
use easysync.DbManager.Execution.{tables_of}
use easysync.DbManager.Users.{is_known, is_user_valid_lem}
use easysync.DbManager.Sync.{HasTables, is_sync_needed_lem}
use easysync.DbManager.Register.{hosts_with, with_socket, add_hostname_lem}
use easysync.Server.Lists.{returns, append, index_of}
use easysync.Server.Messages.{is_pingpong, contains_lower, greeting, sync_request}
use easysync.Server.Protocol.{
  NoOpen, NoNewline, is_pingpong-greeting, get_user_info-greeting, read_line-greeting,
}
use easysync.Server.{
  Server, Action, writes, register, enlist, after_adding, read_client, handle_line,
}

-- A row of the (quoted) host name has to synchronise.
abbrev pub must_sync : Text → List Host → Bool
must_sync h hs = any (λ r. is_host (sql_quote h) r && r.must_sync == 1) hs

-- Writing a socket number leaves the marks alone.
must_sync-with_socket :
    (i : ℤ) (h : Text) (hs : List Host) → must_sync h (with_socket i h hs) ≡ must_sync h hs
must_sync-with_socket i h hs =
    any-map (λ r. is_host (sql_quote h) r && r.must_sync == 1)
      (λ r. if is_host h r then record r { socket_id = i } else r) hs
    ∙ ap (λ p. any p hs) (fun_ext pointwise)
  where
    pointwise :
        (r : Host)
        → let r' = if is_host h r then record r { socket_id = i } else r in
          (is_host (sql_quote h) r' && r'.must_sync == 1)
          ≡ (is_host (sql_quote h) r && r.must_sync == 1)
    pointwise r = ground arith

-- The requests that a registration sends.
abbrev pub requests : ℕ → Text → Bool → List Action
requests socket h b = if b then writes socket (sync_request h) ∷ [] else []

after_adding-actions :
    (e : Engine) (socket : ℕ) (h : Text) (v : Bool × DbManager e) (s : Server e)
    → v.0 ≡ true
    → (after_adding e socket h v s).actions
      ≡ s.actions ++ requests socket h (is_sync_needed e v.1 h).0
after_adding-actions e socket h v s ok = elim (Bool-cases (is_sync_needed e v.1 h).0) [
  | inl p ↦ rw ok (rw p)
  | inr p ↦ rw ok (rw p (sym (append-nil s.actions)))
]

module _ (e : Engine) (rel : IsReliable e) (s : Server e) (socket : ℕ) (u h : Text) (now : ℕ)
    (tabs : HasTables e s.db_manager) (known : is_known u (tables_of e s.db_manager) ≡ true)
    (plain : has_quote u ≡ false) (percent : NoPercent u) where
  added : Bool × DbManager e
  added = add_hostname e s.db_manager u h (index_of (append s.client_connections socket) socket)

  added-Leaves :
      (added.0 ≡ true)
      × (is_connected e added.1 ≡ true)
      × ((tables_of e added.1).users ≡ (tables_of e s.db_manager).users)
      × ((tables_of e added.1).hosts
          ≡ some (
              with_socket
                (index_of (append s.client_connections socket) socket)
                h
                (hosts_with u h (tables_of e s.db_manager))))
  unfolding added
  added-Leaves =
      add_hostname_lem e rel s.db_manager u h (index_of (append s.client_connections socket) socket)
        tabs known plain percent

  added-needed :
      (is_sync_needed e added.1 h).0 ≡ must_sync h (hosts_with u h (tables_of e s.db_manager))
  added-needed =
      let (ok, connected, users, hosts) = added-Leaves in
      is_sync_needed_lem e rel added.1 h (connected, ap exists users ∙ tabs.1, ap exists hosts)
      ∙ ap (λ o. must_sync h (rows_of o)) hosts
      ∙ must_sync-with_socket (index_of (append s.client_connections socket) socket) h
          (hosts_with u h (tables_of e s.db_manager))

  -- Behind a reliable database with both tables, the registration of a user whom the table knows
  -- and whose name holds no quote and no `%` sends the client one request to synchronise, exactly
  -- if a row of its quoted host name has to synchronise, a row that was just added included, and
  -- sends nothing else.
  pub register-actions :
      (register e socket u h now s).actions
      ≡ s.actions ++ requests socket h (must_sync h (hosts_with u h (tables_of e s.db_manager)))
  unfolding register added
  register-actions =
      after_adding-actions e socket h added (enlist e socket h now s) added-Leaves.0
      ∙ ap (λ b. s.actions ++ requests socket h b) added-needed

-- What the two names of a greeting have to be to come through.
pub record IsPlainGreeting (k : Unicode) (u h : Text) : Type 0 where
  pub user_name : IsName k u
  pub user_open : NoOpen u
  pub user_percent : NoPercent u
  pub user_line : NoNewline u
  pub host_name : IsName k h
  pub host_line : NoNewline h
  pub no_ping : is_pingpong (greeting u h) ≡ false

module _ (e : Engine) (rel : IsReliable e) (k : Unicode) (s : Server e) (socket now : ℕ)
    (u h rest : Text) (open_ : s.disabled ≡ false) (tabs : HasTables e s.db_manager)
    (known : is_known u (tables_of e s.db_manager) ≡ true) (plain : has_quote u ≡ false)
    (names : IsPlainGreeting k u h) where
  valid : (is_user_valid e s.db_manager u).0 ≡ true
  valid =
      is_user_valid_lem e rel s.db_manager u (tabs.0, tabs.1)
      ∙ ap (λ b. b && not (has_quote u)) known
      ∙ ap not plain

  -- Behind a reliable database with both tables, when the server is not disabled and the buffer
  -- of a socket begins with the greeting of a user whom the table knows and whose name holds no
  -- quote, both names being plain, readClient returns, leaves what stands behind the greeting in
  -- the buffer, and registers the socket under the user and the host of the greeting.
  pub read_client-greeting :
      read_client e k socket now (greeting u h ++ rest) s
      ≡ returns (
        rest,
        register e socket u h now (record s { db_manager = (is_user_valid e s.db_manager u).1 }),
      )
  unfolding read_client
  read_client-greeting =
      let line = read_line-greeting u h rest names.user_percent names.user_line names.host_line in
      let (info, number) =
        get_user_info-greeting k u h names.user_name names.user_open names.user_percent
          names.host_name in
      rw (open_, line, names.no_ping, number, info, valid)

-- The greeting of a host with `pingpong` in its name, in any case, by a user without a `%` in its
-- name passes for a keep-alive message: where the socket is not registered it stays so, gets no
-- answer, and keeps its connection.
pub handle_line-pingpong_host :
    (e : Engine) (k : Unicode) (socket now : ℕ) (u h : Text) (s : Server e)
    → NoPercent u
    → contains_lower (codes "pingpong") h ≡ true
    → index_of s.client_connections socket ≡ minus_one
    → handle_line e k socket now (greeting u h) s ≡ returns s
unfolding handle_line
handle_line-pingpong_host e k socket now u h s p c r = rw (is_pingpong-greeting u h p c, r)
