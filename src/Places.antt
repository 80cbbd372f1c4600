-- ===== src/Places.antt =====
-- The socket numbers of the database as places in the lists of the server: the contract of
-- server/easysyncserver.cpp with server/dbmanager.cpp, which it keeps as long as no client leaves.
pub mod Methods
pub mod Handlers
pub mod History
pub mod Examples
use easysync.Prelude.{ℕ, ◌≡◌, List, All, length}
use easysync.Database.Schema.{User, user_rows, host_rows}
use easysync.Database.Engine.{Engine}
use easysync.DbManager.{DbManager}
use easysync.DbManager.Execution.{tables_of}
use easysync.DbManager.Sync.{HasTables}
use easysync.Server.{Server}
use easysync.Server.Totality.{InRange}

module _ (e : Engine) (users : List User) where
  -- The database has its tables and these users, and its socket numbers are -1 or below `n`.
  pub record IsPlaced (n : ℕ) (m : DbManager e) : Type 0 where
    pub tabs : HasTables e m
    pub known : user_rows (tables_of e m) ≡ users
    pub in_range : All (λ r. InRange n r.socket_id) (host_rows (tables_of e m))

  -- They are -1 or places in the list of connections.
  abbrev pub InPlace : Server e → Type 0
  InPlace s = IsPlaced (length s.client_connections) s.db_manager
