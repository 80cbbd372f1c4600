-- ===== src/Database/Engine.antt =====
-- SQLite under Qt's driver, which server/dbmanager.cpp calls: a parameter of the model.
use easysync.Prelude.{◌≡◌, Bool, true, false, List, [], Option, if◌then◌else◌}
use easysync.Text.{Text}
use easysync.Database.Schema.{Tables, Row}
use easysync.Database.Statements.{Statement, valid, updated, answer}

-- What `QSqlQuery::exec` leaves: its result, the rows that `next` walks through, the database.
pub record Reply (Db : Type 0) : Type 0 where
  pub ok : Bool
  pub rows : List Row
  pub db : Db

-- SQLite under Qt's driver. Any statement may fail, for a reason of the engine's own, and then it
-- changes nothing; one that SQL refuses does fail; otherwise it does what SQL says, and its rows
-- come in the order of the tables.
pub record Engine : Type 1 where
  pub Db : Type 0
  pub tables : Db → Tables
  pub exec : Db → Statement → Reply Db
  -- `QSqlDatabase::open` on a path.
  pub open_path : Text → Option Db
  -- The driver feature `QuerySize`.
  pub query_size : Bool
  pub refused : (d : Db) (s : Statement) → valid s (tables d) ≡ false → (exec d s).ok ≡ false
  pub tables-exec :
      (d : Db) (s : Statement)
      → tables (exec d s).db ≡ (if (exec d s).ok then updated s (tables d) else tables d)
  pub rows-exec :
      (d : Db) (s : Statement)
      → (exec d s).rows ≡ (if (exec d s).ok then answer s (tables d) else [])

-- Every statement that SQL accepts is carried out.
abbrev pub IsReliable : Engine → Type 0
IsReliable e = (d : e.Db) (s : Statement) → valid s (e.tables d) ≡ true → (e.exec d s).ok ≡ true
