-- ===== src/Server.antt =====
-- server/easysyncserver.cpp: class EasysyncServer. A handler takes the server and returns it as the
-- handler leaves it, or `out_of_range` where it reads a list outside of its bounds. What goes out to
-- a socket is the list `actions`; the socket that a slot asks `sender()` for, the time and the
-- buffered input of the socket are arguments.
pub mod Lists
pub mod State
pub mod Connections
pub mod Messages
pub mod Protocol
pub mod Changes
pub mod Reading
pub mod Totality
pub mod Departure
pub mod Silence
pub mod Lifecycle
pub mod Registration
pub mod Examples
use easysync.Prelude.{
  ℕ, ℤ, pos, negsuc, minus_one, int_eq, ◌-◌, ◌+◌, ◌/◌, Bool, true, false, not, Option, none, some,
  List, [], ◌∷◌, ◌++◌, ◌==◌, ltb, leb, length, if◌then◌else◌,
}
use easysync.Text.{Text, text_eq, codes}
use easysync.Text.Scan.{Unicode}
use easysync.Database.Engine.{Engine}
use easysync.DbManager.{
  DbManager, void_connection, set_notify_all_except, is_user_valid, clients_to_sync, sync_is_done,
  is_sync_needed, add_hostname,
}
use Lists.{Run, returns, out_of_range, ◌>>=◌, at, replace, append, remove_all, index_of}
use Messages.{read_line, is_pingpong, sync_request, get_user_info, id_of}
pub use State.{Action, writes, disconnects, deletes, closes, nat_eq, Server, emit}
unfoldable pub use Connections.{
  seconds_between, silent, disconnect_each, check_clients_connection, accept_each,
  handle_new_connection, stop_when_empty, forget, client_disconnected,
}

module _ (e : Engine) where
  -- EasysyncServer::sendToClient
  abbrev pub send_to_client : ℕ → Text → Server e → Server e
  send_to_client socket message s = emit e (writes socket message) s

  -- EasysyncServer::notifyClient
  abbrev pub notify_client : ℕ → Text → Server e → Server e
  notify_client socket hostname s = send_to_client socket (sync_request hostname) s

  abbrev pub notify_each : List ℤ → Server e → Run (Server e)
  notify_each [] s = returns s
  notify_each (negsuc i ∷ ids) s = if i == 0 then notify_each ids s else out_of_range
  notify_each (pos i ∷ ids) s = do
    client ← at s.client_connections (pos i)
    peer_hostname ← at s.peer_names (pos i)
    notify_each ids (notify_client client peer_hostname s)

  -- EasysyncServer::notifyClients
  unfoldable pub notify_clients : Text → Server e → Run (Server e)
  notify_clients username s =
      let (sockets, m) = clients_to_sync e s.db_manager username [] in
      notify_each sockets (record s { db_manager = m })

  abbrev pub refuse : ℕ → Server e → Server e
  refuse socket s = emit e (disconnects socket) (send_to_client socket (codes "Negative\n") s)

  abbrev pub request_if_needed : ℕ → Text → Bool × DbManager e → Server e → Server e
  request_if_needed socket hostname (needed, m) s =
      let s' = record s { db_manager = m } in
      if needed then notify_client socket hostname s' else s'

  abbrev pub after_adding : ℕ → Text → Bool × DbManager e → Server e → Server e
  after_adding socket hostname (added, m) s =
      if added
      then request_if_needed socket hostname (is_sync_needed e m hostname) s
      else emit e (disconnects socket) (record s { db_manager = m })

  -- The three lists of a new client, and the timer.
  abbrev pub enlist : ℕ → Text → ℕ → Server e → Server e
  enlist socket hostname now s =
      let connections = append s.client_connections socket in
      record s {
        client_connections = connections;
        peer_names = append s.peer_names hostname;
        client_last_seen = append s.client_last_seen now;
        keep_alive_active = if length connections == 1 then true else s.keep_alive_active;
      }

  -- readClient, message 1, for a valid user.
  unfoldable pub register : ℕ → Text → Text → ℕ → Server e → Server e
  register socket username hostname now s =
      let s' = enlist socket hostname now s in
      let socket_id = index_of s'.client_connections socket in
      after_adding socket hostname (add_hostname e s'.db_manager username hostname socket_id) s'

  -- What messages 1 and 3 do first: the user information is there and the user is valid.
  abbrev pub authorised :
      ℕ
      → Option (Text × Text)
      → (Text → Text → Server e → Run (Server e))
      → Server e
      → Run (Server e)
  authorised socket none next s = returns (emit e (disconnects socket) s)
  authorised socket (some (username, hostname)) next s =
      let (valid, m) = is_user_valid e s.db_manager username in
      let s' = record s { db_manager = m } in
      if valid then next username hostname s' else returns (refuse socket s')

  -- readClient, message 2.
  unfoldable pub handle_over : ℕ → Server e → Run (Server e)
  handle_over socket s = do
    peer_hostname ← at s.peer_names (index_of s.client_connections socket)
    returns (record s { db_manager = sync_is_done e s.db_manager peer_hostname })

  -- readClient, message 3, for a valid user.
  unfoldable pub handle_notify_all : Text → Text → Server e → Run (Server e)
  unfolding notify_clients
  handle_notify_all username hostname s =
      notify_clients username
        (record s { db_manager = set_notify_all_except e s.db_manager username hostname })

  -- readClient, a keep-alive message.
  abbrev pub note_alive : ℤ → ℕ → Server e → Run (Server e)
  note_alive (negsuc i) now s = returns s
  note_alive (pos i) now s = do
    seen ← replace s.client_last_seen (pos i) now
    returns (record s { client_last_seen = seen })

  module _ (u : Unicode) where
    -- readClient, the `switch` on the message number.
    unfoldable pub handle_message : Option ℕ → ℕ → ℕ → Text → Server e → Run (Server e)
    unfolding register handle_over handle_notify_all
    handle_message none socket now message s = returns (emit e (disconnects socket) s)
    handle_message (some id) socket now message s =
        if id == 1
        then authorised socket (get_user_info u message)
            (λ username hostname s'. returns (register socket username hostname now s')) s
        else if id == 2
        then handle_over socket s
        else if id == 3
        then authorised socket (get_user_info u message) handle_notify_all s
        else returns (emit e (disconnects socket) s)

    unfoldable pub handle_line : ℕ → ℕ → Text → Server e → Run (Server e)
    unfolding handle_message
    handle_line socket now message s =
        if is_pingpong message
        then note_alive (index_of s.client_connections socket) now s
        else handle_message (id_of u message) socket now message s

    abbrev pub read_buffered :
        ℕ → ℕ → Option (Text × Text) → Text → Server e → Run (Text × Server e)
    read_buffered socket now none buffer s = returns (buffer, s)
    read_buffered socket now (some (line, rest)) buffer s = do
      s' ← handle_line socket now line s
      returns (rest, s')

    -- EasysyncServer::readClient: at most one line is read, and the rest stays in the buffer.
    unfoldable pub read_client : ℕ → ℕ → Text → Server e → Run (Text × Server e)
    unfolding handle_line
    read_client socket now buffer s =
        if s.disabled
        then returns (buffer, s)
        else read_buffered socket now (read_line buffer) buffer s

  -- EasysyncServer::pause, resume, stop
  unfoldable pub pause : Server e → Server e
  pause s = record s { disabled = true }

  unfoldable pub resume : Server e → Server e
  resume s = record s { disabled = false }

  unfoldable pub stop : Server e → Server e
  stop s = emit e closes (record s { disabled = true })
