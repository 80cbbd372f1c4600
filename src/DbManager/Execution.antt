-- ===== src/DbManager/Execution.antt =====
-- What one statement does to the tables and gives as rows, for an engine that may fail.
use easysync.Prelude.{◌≡◌, refl, true, false, Option, none, some, [], if◌then◌else◌, ap, ◌∙◌}
use easysync.Text.{Text}
use easysync.Database.Schema.{Tables}
use easysync.Database.Statements.{Statement, valid, updated, answer}
use easysync.Database.Engine.{Engine, IsReliable}
use easysync.DbManager.{DbManager, is_connected, execute}

module _ (e : Engine) where
  open e use {Db, tables, exec}

  -- The tables that the open connection shows; a manager with no connection shows none.
  abbrev pub tables_of : DbManager e → Tables
  tables_of m = elim m.db [ none ↦ record { users = none; hosts = none } | some d ↦ tables d ]

  abbrev pub at : Text → Option Db → DbManager e
  at path o = record { db_path = path; db = o }

  -- A manager has an open connection or none.
  pub DbManager-cases {ℓ} :
      (P : DbManager e → Type ℓ)
      → ((path : Text) → P (at path none))
      → ((path : Text) (d : Db) → P (at path (some d)))
      → (m : DbManager e) → P m
  DbManager-cases P closed open_ m = go m.db_path m.db
    where
      go : (path : Text) (o : Option Db) → P (at path o)
      go path none = closed path
      go path (some d) = open_ path d

  pub tables_done :
      (d : Db) (s : Statement) → (exec d s).ok ≡ true → tables (exec d s).db ≡ updated s (tables d)
  tables_done d s h = e.tables-exec d s ∙ ap (λ b. if b then updated s (tables d) else tables d) h

  pub rows_done :
      (d : Db) (s : Statement) → (exec d s).ok ≡ true → (exec d s).rows ≡ answer s (tables d)
  rows_done d s h = e.rows-exec d s ∙ ap (λ b. if b then answer s (tables d) else []) h

  pub tables_failed :
      (d : Db) (s : Statement) → (exec d s).ok ≡ false → tables (exec d s).db ≡ tables d
  tables_failed d s h = e.tables-exec d s ∙ ap (λ b. if b then updated s (tables d) else tables d) h

  pub rows_failed : (d : Db) (s : Statement) → (exec d s).ok ≡ false → (exec d s).rows ≡ []
  rows_failed d s h = e.rows-exec d s ∙ ap (λ b. if b then answer s (tables d) else []) h

  -- A statement that changes no table, such as a `SELECT`.
  pub tables_kept :
      (d : Db) (s : Statement) → updated s (tables d) ≡ tables d → tables (exec d s).db ≡ tables d
  tables_kept d s h =
      elim (exec d s).ok as (λ b. (exec d s).ok ≡ b → tables (exec d s).db ≡ tables d) [
        | true ↦ λ p. tables_done d s p ∙ h
        | false ↦ λ p. tables_failed d s p
      ]
        refl

  -- A statement that SQL accepts, executed on the open connection.
  pub execute_lem :
      IsReliable e
      → (m : DbManager e) (s : Statement) → is_connected e m ≡ true
      → valid s (tables_of m) ≡ true
      → (tables_of (execute e m s) ≡ updated s (tables_of m))
        × (is_connected e (execute e m s) ≡ true)
  execute_lem r m s =
      DbManager-cases
        (λ m.
          is_connected e m ≡ true
          → valid s (tables_of m) ≡ true
          → (tables_of (execute e m s) ≡ updated s (tables_of m))
            × (is_connected e (execute e m s) ≡ true))
        (λ path c v. cc) (λ path d c v. (tables_done d s (r d s v), refl)) m
