-- ===== src/DbManager/Setup.antt =====
-- `createTables` and `connect` of server/dbmanager.cpp.
use easysync.Prelude.{
  ◌≡◌, refl, Bool, true, false, not, ◌&&◌, Option, none, some, List, [], arith, if◌then◌else◌, ap,
  ◌∙◌, Bool-cases, Option-cases, inl, inr,
}
use easysync.Database.Schema.{Tables, User, Host, Row, user_rows, rows_of, exists}
use easysync.Database.Statements.{
  Statement, valid, updated, answer, select_users_table, create_users, drop_hosts, create_hosts,
}
use easysync.Database.Engine.{Engine, IsReliable}
use easysync.DbManager.{
  connect, disconnect, DbManager, is_connected, is_size_below_one, create_tables, make_tables,
  make_if_missing,
}
use easysync.DbManager.Execution.{
  tables_of, DbManager-cases, tables_done, tables_failed, rows_done, tables_kept,
}

-- The tables after createTables: it keeps them only if the driver reports the size of a result and
-- `users` is there; in every other case the hosts are gone, and the users are kept.
abbrev pub prepared : Bool → Tables → Tables
prepared reports t =
    if reports && exists t.users then t else record { users = some (user_rows t); hosts = some [] }

module _ (e : Engine) (r : IsReliable e) where
  open e use {Db, tables, exec, query_size}

  exec_total :
      (d : Db) (s : Statement) (t : Tables)
      → tables d ≡ t
      → tables (exec d s).db ≡ (if valid s t then updated s t else t)
  exec_total d s t p = elim (Bool-cases (valid s t)) [
    | inl v ↦ rw v (tables_done e d s (r d s (ap (valid s) p ∙ v)) ∙ ap (updated s) p)
    | inr v ↦ rw v (tables_failed e d s (e.refused d s (ap (valid s) p ∙ v)) ∙ p)
  ]

  users_made :
      (d : Db) (us : Option (List User)) (hs : Option (List Host))
      → tables d ≡ record { users = us; hosts = hs }
      → tables (exec d create_users).db ≡ record { users = some (rows_of us); hosts = hs }
  unfolding valid updated
  users_made d none hs p = exec_total d create_users (record { users = none; hosts = hs }) p
  users_made d (some us) hs p = exec_total d create_users (record { users = some us; hosts = hs }) p

  hosts_dropped :
      (d : Db) (us : Option (List User)) (hs : Option (List Host))
      → tables d ≡ record { users = us; hosts = hs }
      → tables (exec d drop_hosts).db ≡ record { users = us; hosts = none }
  unfolding valid updated
  hosts_dropped d us none p = exec_total d drop_hosts (record { users = us; hosts = none }) p
  hosts_dropped d us (some hs) p =
      exec_total d drop_hosts (record { users = us; hosts = some hs }) p

  make_tables_lem :
      (d : Db)
      → tables (make_tables e d) ≡ record { users = some (user_rows (tables d)); hosts = some [] }
  unfolding valid updated
  make_tables_lem d =
      exec_total _ create_hosts _
        (hosts_dropped _ _ _ (users_made d (tables d).users (tables d).hosts refl))

  made :
      (d : Db) (rows : List Row) (t : Tables)
      → tables d ≡ t
      → is_size_below_one query_size rows ≡ not (query_size && exists t.users)
      → tables (make_if_missing e d rows) ≡ prepared query_size t
  made d rows t p b = rw b (elim (Bool-cases (query_size && exists t.users)) [
    | inl q ↦ rw q p
    | inr q ↦
        rw q
          (make_tables_lem d ∙ ap (λ t. record { users = some (user_rows t); hosts = some [] }) p)
  ])

  size_test :
      (q : Bool) (t : Tables)
      → is_size_below_one q (answer select_users_table t) ≡ not (q && exists t.users)
  unfolding answer
  size_test q t = ground arith

  -- With a reliable engine and an open connection, createTables succeeds and stays connected. It
  -- keeps both tables as they were only if the driver reports the size of a result and the users
  -- table is there; in every other case the users are kept or an empty table is made, and the
  -- hosts are gone.
  pub create_tables_lem :
      (m : DbManager e)
      → is_connected e m ≡ true
      → ((create_tables e m).0 ≡ true)
        × (is_connected e (create_tables e m).1 ≡ true)
        × (tables_of e (create_tables e m).1 ≡ prepared query_size (tables_of e m))
  unfolding create_tables updated valid
  create_tables_lem m =
      DbManager-cases e
        (λ m.
          is_connected e m ≡ true
          → ((create_tables e m).0 ≡ true)
            × (is_connected e (create_tables e m).1 ≡ true)
            × (tables_of e (create_tables e m).1 ≡ prepared query_size (tables_of e m)))
        (λ path c. cc)
        (λ path d c.
          let s = select_users_table in
          let ok = r d s refl in
          let rows = rows_done e d s ok in
          rw ok (
            refl,
            refl,
            made (exec d s).db (exec d s).rows (tables d) (tables_kept e d s refl)
                (ap (is_size_below_one query_size) rows ∙ size_test query_size (tables d)),
          ))
        m

-- A connection is open after connect exactly if the path could be opened, and never after
-- disconnect.
pub is_connected-connect :
    (e : Engine) (m : DbManager e)
    → ((connect e m).0 ≡ exists (e.open_path m.db_path))
      × (is_connected e (connect e m).1 ≡ (connect e m).0)
      × (is_connected e (disconnect e (connect e m).1) ≡ false)
unfolding connect disconnect
is_connected-connect e m = elim (Option-cases (e.open_path m.db_path)) [
  | inl o ↦ rw o (refl, refl, refl)
  | inr (d, o) ↦ rw o (refl, refl, refl)
]

pub connect-opened :
    (e : Engine) (m : DbManager e) (d : e.Db)
    → e.open_path m.db_path ≡ some d
    → connect e m ≡ (true, record m { db = some d })
unfolding connect
connect-opened e m d o = rw o refl
