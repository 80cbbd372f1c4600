-- ===== src/Server/Connections.antt =====
-- The slots of server/easysyncserver.cpp for its timer and for connections that come and go.
use easysync.Prelude.{
  ℕ, ℤ, pos, negsuc, ◌-◌, ◌+◌, ◌/◌, false, Option, none, some, List, [], ◌∷◌, ◌++◌, ◌==◌, ltb,
  length, if◌then◌else◌,
}
use easysync.Text.{text_eq}
use easysync.Database.Engine.{Engine}
use easysync.DbManager.{void_connection}
use easysync.Server.Lists.{Run, returns, ◌>>=◌, at, remove_all, index_of}
use easysync.Server.State.{disconnects, deletes, nat_eq, Server, emit}

module _ (e : Engine) where
  -- `abs(currentTime.secsTo(lastSeen))`
  abbrev pub seconds_between : ℕ → ℕ → ℕ
  seconds_between current seen =
      if ltb current seen then (seen - current) / 1000 else (current - seen) / 1000

  -- The sockets at the places where the client has been silent for more than 60 seconds; the walk
  -- goes over the places of `clientLastSeen`.
  abbrev pub silent : ℕ → ℕ → List ℕ → List ℕ → Run (List ℕ)
  silent i current [] connections = returns []
  silent i current (seen ∷ rest) connections =
      let later = silent (i + 1) current rest connections in
      if ltb 60 (seconds_between current seen)
      then (do client ← at connections (pos i); must ← later; returns (client ∷ must))
      else later

  abbrev pub disconnect_each : List ℕ → Server e → Server e
  disconnect_each [] s = s
  disconnect_each (client ∷ must) s = disconnect_each must (emit e (disconnects client) s)

  -- EasysyncServer::checkClientsConnection
  unfoldable pub check_clients_connection : ℕ → Server e → Run (Server e)
  check_clients_connection current s = do
    must ← silent 0 current s.client_last_seen s.client_connections
    returns (disconnect_each must s)

  abbrev pub accept_each : List ℕ → Server e → Server e
  accept_each [] s = record s { pending = [] }
  accept_each (client ∷ rest) s = accept_each rest (record s { wired = s.wired ++ client ∷ [] })

  -- EasysyncServer::handleNewConnection
  unfoldable pub handle_new_connection : Server e → Server e
  handle_new_connection s = if s.disabled then s else accept_each s.pending s

  abbrev pub stop_when_empty : Server e → Server e
  stop_when_empty s =
      if length s.client_connections == 0 then record s { keep_alive_active = false } else s

  -- The part of clientDisconnected for a socket that is in the lists.
  abbrev pub forget : ℤ → ℕ → Server e → Run (Server e)
  forget (negsuc i) client s = returns s
  forget (pos i) client s = do
    hostname ← at s.peer_names (pos i)
    last_seen ← at s.client_last_seen (pos i)
    returns (record s {
      db_manager = void_connection e s.db_manager hostname;
      client_connections = remove_all nat_eq s.client_connections client;
      peer_names = remove_all text_eq s.peer_names hostname;
      client_last_seen = remove_all nat_eq s.client_last_seen last_seen;
    })

  -- EasysyncServer::clientDisconnected
  unfoldable pub client_disconnected : Option ℕ → Server e → Run (Server e)
  client_disconnected none s = returns s
  client_disconnected (some client) s = do
    s' ← forget (index_of s.client_connections client) client s
    returns (emit e (deletes client) (stop_when_empty s'))
