-- ===== src/DbManager/Sync.antt =====
-- Which hosts have to synchronise: setNotifyAllExcept, clientsToSync, syncIsDone and isSyncNeeded
-- of server/dbmanager.cpp.
use easysync.Prelude.{
  ℤ, ◌≡◌, refl, Bool, true, not, ◌&&◌, ◌||◌, List, any, arith, if◌then◌else◌, ap, ◌∙◌, ◌==◌,
  any-map, fun_ext,
}
use easysync.Text.{Text}
use easysync.Database.Literals.{literal}
use easysync.Database.Schema.{Tables, Host, user_rows, host_rows, exists, user_id_of}
use easysync.Database.Statements.{
  valid, updated, mark_others, select_clients, clear_sync, select_must_sync, is_host, owned_by,
}
use easysync.Database.Engine.{Engine, IsReliable}
use easysync.DbManager.{
  DbManager, is_connected, set_notify_all_except, clients_to_sync, sync_is_done, is_sync_needed,
}
use easysync.DbManager.Quote.{sql_quote}
use easysync.DbManager.Queries.{notify_query, clients_query, needed_query}
use easysync.DbManager.Execution.{tables_of, execute_lem, DbManager-cases, rows_done, tables_kept}
use easysync.DbManager.Users.{is_known}
use easysync.DbManager.Selects.{
  notify_literal, clients_literal, needed_literal, answer_clients, answer_needed, contains, due_at,
}

due_after_sync :
    (n h : Text) (r : Host)
    → let r' = if is_host h r then record r { must_sync = 0 } else r in
      (is_host n r' && r'.must_sync == 1) ≡ (is_host n r && not (is_host h r) && r.must_sync == 1)
due_after_sync n h r = ground arith

module _ (e : Engine) where
  open e use {Db, tables, exec}

  -- The connection is open and both tables are there.
  abbrev pub HasTables : DbManager e → Type 0
  HasTables m =
      (is_connected e m ≡ true)
      × (exists (tables_of e m).users ≡ true)
      × (exists (tables_of e m).hosts ≡ true)

  -- With a reliable database and both tables, the sockets that clientsToSync finds are, for a
  -- user whose quoted name the table knows, those of all hosts that are due and connected, the
  -- hosts of other users included since the query does not join the host to the user; for any
  -- other user there are none.
  pub clients_to_sync_lem :
      IsReliable e
      → (m : DbManager e) (u : Text) (sockets : List ℤ) (i : ℤ) → HasTables m
      → contains i (clients_to_sync e m u sockets).0
        ≡ (any (due_at i) (host_rows (tables_of e m)) && is_known (sql_quote u) (tables_of e m))
  unfolding clients_to_sync valid
  clients_to_sync_lem r m u sockets i =
      DbManager-cases e
        (λ m.
          HasTables m
          → contains i (clients_to_sync e m u sockets).0 ≡ (
              any (due_at i) (host_rows (tables_of e m)) && is_known (sql_quote u) (tables_of e m)))
        (λ path h. cc)
        (λ path d h.
          let s = select_clients (literal (clients_query (sql_quote u)) 2) in
          let done = rows_done e d s (r d s (ground arith)) in
          rw (done, clients_literal u) (answer_clients i (sql_quote u) (tables d)))
        m

  -- A host has to synchronise if a row of its quoted name says so.
  pub is_sync_needed_lem :
      IsReliable e
      → (m : DbManager e) (h : Text) → HasTables m
      → (is_sync_needed e m h).0
        ≡ any (λ r. is_host (sql_quote h) r && r.must_sync == 1) (host_rows (tables_of e m))
  unfolding is_sync_needed valid updated
  is_sync_needed_lem r m h =
      DbManager-cases e
        (λ m.
          HasTables m
          → (is_sync_needed e m h).0
            ≡ any (λ r. is_host (sql_quote h) r && r.must_sync == 1) (host_rows (tables_of e m)))
        (λ path x. cc)
        (λ path d x.
          let s = select_must_sync (literal (needed_query (sql_quote h)) 0) in
          let first = tables_kept e d s refl in
          let second = rows_done e (exec d s).db s (r (exec d s).db s (rw first x.2)) in
          rw (second, first, needed_literal h) (answer_needed (sql_quote h) (tables d)))
        m

  -- What keeps the connection and the tables there.
  stays :
      (m' : DbManager e) (t : Tables)
      → tables_of e m' ≡ t
      → is_connected e m' ≡ true
      → exists t.users ≡ true
      → exists t.hosts ≡ true
      → HasTables m'
  stays m' t p c u h = (c, ap (λ t. exists t.users) p ∙ u, ap (λ t. exists t.hosts) p ∙ h)

  -- A host of the user who sends a notification, other than the host that sends it.
  abbrev pub other_host_of : Text → Text → Tables → Host → Bool
  other_host_of u h t r =
      not (is_host h r) && owned_by (user_id_of (sql_quote u) (user_rows t)) r.user_id

  -- What setNotifyAllExcept makes of the tables.
  pub marked :
      IsReliable e
      → (m : DbManager e) (u h : Text) → HasTables m
      → (tables_of e (set_notify_all_except e m u h)
          ≡ updated (mark_others h (sql_quote u)) (tables_of e m))
        × HasTables (set_notify_all_except e m u h)
  unfolding set_notify_all_except updated valid
  marked r m u h x =
      let s = mark_others h (literal (notify_query (sql_quote u)) 0) in
      let done = execute_lem e r m s x.0 (ground arith) in
      let known = done.0 ∙ ap (λ n. updated (mark_others h n) (tables_of e m)) (notify_literal u) in
      (known, stays (set_notify_all_except e m u h) _ known done.1 x.1 refl)

  due_after_mark :
      (n : Text) (u h : Text) (t : Tables) (r : Host)
      → let r' = if other_host_of u h t r then record r { must_sync = 1 } else r in
        (is_host n r' && r'.must_sync == 1)
        ≡ (is_host n r && (r.must_sync == 1 || other_host_of u h t r))
  due_after_mark n u h t r = ground arith

  -- With a reliable database and both tables, after setNotifyAllExcept a host has to synchronise
  -- exactly if a row of its quoted name had to before, or is of another name than the excepted
  -- host and is owned by the user of the quoted name.
  pub is_sync_needed-set_notify_all_except :
      IsReliable e
      → (m : DbManager e) (u h h' : Text) → HasTables m
      → (is_sync_needed e (set_notify_all_except e m u h) h').0
        ≡ any
            (λ r.
              is_host (sql_quote h') r && (r.must_sync == 1 || other_host_of u h (tables_of e m) r))
            (host_rows (tables_of e m))
  unfolding updated
  is_sync_needed-set_notify_all_except r m u h h' x =
      let k = marked r m u h x in
      let t = tables_of e m in
      let q = λ (r : Host). is_host (sql_quote h') r && r.must_sync == 1 in
      is_sync_needed_lem r (set_notify_all_except e m u h) h' k.1
      ∙ ap (λ t. any q (host_rows t)) k.0
      ∙ any-map q (λ r. if other_host_of u h t r then record r { must_sync = 1 } else r)
          (host_rows t)
      ∙ ap (λ p. any p (host_rows t)) (fun_ext (due_after_mark (sql_quote h') u h t))

  -- With a reliable database and both tables, after syncIsDone for one host a host has to
  -- synchronise exactly if a row of its quoted name, not of the name of the first, had to before.
  pub is_sync_needed-sync_is_done :
      IsReliable e
      → (m : DbManager e) (h h' : Text) → HasTables m
      → (is_sync_needed e (sync_is_done e m h) h').0
        ≡ any
            (λ r. is_host (sql_quote h') r && not (is_host h r) && r.must_sync == 1)
            (host_rows (tables_of e m))
  unfolding updated valid sync_is_done
  is_sync_needed-sync_is_done r m h h' x =
      let t = tables_of e m in
      let q = λ (r : Host). is_host (sql_quote h') r && r.must_sync == 1 in
      let done = execute_lem e r m (clear_sync h) x.0 x.2 in
      is_sync_needed_lem r (sync_is_done e m h) h'
        (stays (sync_is_done e m h) _ done.0 done.1 x.1 refl)
      ∙ ap (λ t. any q (host_rows t)) done.0
      ∙ any-map q (λ r. if is_host h r then record r { must_sync = 0 } else r) (host_rows t)
      ∙ ap (λ p. any p (host_rows t)) (fun_ext (due_after_sync (sql_quote h') h))
