-- ===== src/DbManager/Register.antt =====
-- `addHostname` of server/dbmanager.cpp: the row of a host, and the socket that it has.
use easysync.Prelude.{
  ℤ, ◌≡◌, refl, Bool, true, false, ◌&&◌, ◌||◌, some, List, [], ◌∷◌, ◌++◌, map, filter, any, arith,
  if◌then◌else◌, ap, ap₂, ◌∙◌, Bool-cases, inl, inr, get_or,
}
use easysync.Text.{Text}
use easysync.Text.Format.{NoPercent}
use easysync.Database.Literals.{literal}
use easysync.Database.Schema.{
  Tables, User, Host, Row, user_rows, host_rows, has_name, exists, user_id_of,
}
use easysync.Database.Statements.{
  valid, updated, answer, select_registered, insert_host, assign_socket, is_host, cross, new_host,
}
use easysync.Database.Engine.{Engine, IsReliable}
use easysync.DbManager.{
  DbManager, is_connected, has_row, add_hostname, add_in, insert_then_assign, assign,
}
use easysync.DbManager.Quote.{
  sql_quote, has_quote, sql_quote-NoQuote, sql_quote-NoPercent, sql_quote-eq_self,
}
use easysync.DbManager.Queries.{registered_query, literals-registered_query}
use easysync.DbManager.Execution.{
  tables_of, DbManager-cases, at, tables_done, rows_done, tables_kept,
}
use easysync.DbManager.Users.{is_known}
use easysync.DbManager.Selects.{user_id_cases, any-filter}
use easysync.DbManager.Sync.{HasTables}

-- A row of that hostname is in the table, whoever owns it.
abbrev pub is_listed : Text → Tables → Bool
is_listed h t = any (is_host h) (host_rows t)

has_row-append : (xs ys : List Row) → has_row (xs ++ ys) ≡ (has_row xs || has_row ys)
has_row-append [] ys = refl
has_row-append (x ∷ xs) ys = refl

has_row-map : {A : Type 0} (f : A → Row) (xs : List A) → has_row (map f xs) ≡ any (λ _. true) xs
has_row-map f [] = refl
has_row-map f (x ∷ xs) = refl

has_row-cross :
    (f : User → Host → Row) (us : List User) (hs : List Host)
    → has_row (cross f us hs) ≡ (any (λ _. true) us && any (λ _. true) hs)
has_row-cross f [] hs = refl
has_row-cross f (u ∷ us) hs =
    rw (has_row-append (map (f u) hs) (cross f us hs), has_row-map (f u) hs, has_row-cross f us hs)
      (ground arith)

answer_registered :
    (n h : Text) (t : Tables)
    → has_row (answer (select_registered n h) t) ≡ (is_known n t && is_listed h t)
unfolding answer
answer_registered n h t =
    has_row-cross _ (filter (has_name n) (user_rows t)) (filter (is_host h) (host_rows t))
    ∙ ap₂ ◌&&◌ (any-filter (has_name n) (user_rows t)) (any-filter (is_host h) (host_rows t))

registered_literals :
    (u h : Text)
    → NoPercent u
    → let text = registered_query (sql_quote u) (sql_quote h) in
      select_registered (literal text 0) (literal text 1)
      ≡ select_registered (sql_quote u) (sql_quote h)
registered_literals u h p =
    ap (λ ts. select_registered (get_or ts 0 []) (get_or ts 1 []))
      (literals-registered_query (sql_quote u) (sql_quote h) (sql_quote-NoQuote u)
        (sql_quote-NoPercent u p) (sql_quote-NoQuote h))

-- The rows of `hosts` after addHostname: a row is added if no host of the (quoted) name is there,
-- and the socket is written to every row of the name.
abbrev pub with_socket : ℤ → Text → List Host → List Host
with_socket i h hs = map (λ r. if is_host h r then record r { socket_id = i } else r) hs

abbrev pub hosts_with : Text → Text → Tables → List Host
hosts_with u h t =
    if is_listed (sql_quote h) t
    then host_rows t
    else host_rows t ++ new_host (user_id_of u (user_rows t)) h (host_rows t)

known_id :
    (u : Text) (us : List User) → any (has_name u) us ≡ true → exists (user_id_of u us) ≡ true
known_id u us k = elim (user_id_cases u us) [ inl (a, b) ↦ cc | inr (i, a, b, c) ↦ rw a ]

module _ (e : Engine) where
  open e use {Db, tables, exec}

  -- What addHostname leaves: the result, the users as they were, and these hosts.
  abbrev pub Leaves : Bool × DbManager e → Tables → List Host → Type 0
  Leaves v t hs =
      (v.0 ≡ true)
      × (is_connected e v.1 ≡ true)
      × ((tables_of e v.1).users ≡ t.users)
      × ((tables_of e v.1).hosts ≡ some hs)

  assign_lem :
      IsReliable e
      → (m : DbManager e) (d : Db) (i : ℤ) (h : Text) (t : Tables) → tables d ≡ t
      → exists t.hosts ≡ true
      → Leaves (assign e m d i h) t (with_socket i h (host_rows t))
  unfolding updated valid
  assign_lem r m d i h t p x =
      let done = tables_done e d (assign_socket i h) (r d (assign_socket i h) (rw p x)) in
      (
        refl,
        refl,
        ap (λ t. t.users) done ∙ ap (λ t. t.users) p,
        ap (λ t. t.hosts) done ∙ ap (λ t. some (with_socket i h (host_rows t))) p,
      )

  insert_lem :
      IsReliable e
      → (m : DbManager e) (d : Db) (u h : Text) (i : ℤ) (t : Tables) → tables d ≡ t
      → (exists t.users && exists t.hosts) ≡ true
      → is_known u t ≡ true
      → Leaves
          (insert_then_assign e m d u h i)
          t
          (with_socket i h (host_rows t ++ new_host (user_id_of u (user_rows t)) h (host_rows t)))
  unfolding updated valid
  insert_lem r m d u h i t p x k =
      let s = insert_host u h in
      let ok = r d s (rw p (ground (arith, known_id u (user_rows t) k))) in
      let done = tables_done e d s ok ∙ ap (updated s) p in
      rw ok (assign_lem r m (exec d s).db i h (updated s t) done refl)

  add_in_lem :
      IsReliable e
      → (m : DbManager e) (d : Db) (rows : List Row) (u h : Text) (i : ℤ) (t : Tables)
      → tables d ≡ t
      → (exists t.users && exists t.hosts) ≡ true
      → is_known u t ≡ true
      → has_row rows ≡ is_listed (sql_quote h) t
      → Leaves
          (add_in e m (record { ok = true; rows = rows; db = d }) u h i)
          t
          (with_socket i h (hosts_with u h t))
  add_in_lem r m d rows u h i t p x k listed = elim (Bool-cases (is_listed (sql_quote h) t)) [
    | inl a ↦ rw (listed, a) (assign_lem r m d i h t p (ground arith))
    | inr a ↦ rw (listed, a) (insert_lem r m d u h i t p x k)
  ]

  -- With a reliable database and both tables, addHostname for a user whom the table knows and
  -- whose name holds no quote and no `%` succeeds, stays connected, leaves the users as they
  -- were, adds a row for the host exactly if no host of the quoted name is listed, whoever owns
  -- it, and writes the socket number to every row of the name.
  pub add_hostname_lem :
      IsReliable e
      → (m : DbManager e) (u h : Text) (i : ℤ) → HasTables e m
      → is_known u (tables_of e m) ≡ true
      → has_quote u ≡ false
      → NoPercent u
      → Leaves
          (add_hostname e m u h i)
          (tables_of e m)
          (with_socket i h (hosts_with u h (tables_of e m)))
  unfolding add_hostname updated valid
  add_hostname_lem r m u h i =
      DbManager-cases e
        (λ m.
          HasTables e m
          → is_known u (tables_of e m) ≡ true
          → has_quote u ≡ false
          → NoPercent u
          → Leaves (add_hostname e m u h i) (tables_of e m)
              (with_socket i h (hosts_with u h (tables_of e m))))
        (λ path x. cc)
        (λ path d x k q p.
          let s = select_registered (sql_quote u) (sql_quote h) in
          let first = tables_kept e d s refl in
          let ok = r (exec d s).db s (rw first (ground arith)) in
          let rows = rows_done e (exec d s).db s ok in
          let known = ap (λ n. is_known n (tables d)) (sql_quote-eq_self u q) ∙ k in
          let listed =
            ap has_row rows
            ∙ ap (λ t. has_row (answer s t)) first
            ∙ answer_registered (sql_quote u) (sql_quote h) (tables d)
            ∙ ap (λ b. b && is_listed (sql_quote h) (tables d)) known in
          let second = tables_kept e (exec d s).db s refl ∙ first in
          rw (registered_literals u h p) (
            rw ok (
              add_in_lem r (at e path (some d)) (exec (exec d s).db s).db
                (exec (exec d s).db s).rows u h i (tables d) second (ground arith) k listed)))
        m
