-- ===== src/Server/State.antt =====
-- The state of class EasysyncServer (server/easysyncserver.h), and what goes out to its sockets.
use easysync.Prelude.{ℕ, Bool, List, [], ◌∷◌, ◌++◌, ◌==◌}
use easysync.Text.{Text}
use easysync.Database.Engine.{Engine}
use easysync.DbManager.{DbManager}

pub data Action : Type 0 where
  writes : ℕ → Text → Action
  disconnects deletes : ℕ → Action
  closes : Action

abbrev pub nat_eq : ℕ → ℕ → Bool
nat_eq a b = a == b

module _ (e : Engine) where
  -- A socket is a number; a `QTime` is the number of milliseconds since midnight. `pending` are the
  -- connections that `nextPendingConnection` hands out, `wired` those whose signals are connected.
  pub record Server : Type 0 where
    pub disabled : Bool
    pub db_manager : DbManager e
    pub client_connections : List ℕ
    pub peer_names : List Text
    pub client_last_seen : List ℕ
    pub keep_alive_active : Bool
    pub pending : List ℕ
    pub wired : List ℕ
    pub actions : List Action

  abbrev pub emit : Action → Server → Server
  emit a s = record s { actions = s.actions ++ a ∷ [] }
