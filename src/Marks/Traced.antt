-- ===== src/Marks/Traced.antt =====
-- The histories of a server (server/easysyncserver.cpp) in which it does not mix up its clients: who has
-- registered from which socket is followed besides, and the reports are counted for these.
use easysync.Prelude.{ℕ, ◌≡◌, some, List, [], ◌++◌, subst, All, append-nil, true, false}
use easysync.Text.{Text}
use easysync.Text.Format.{NoPercent}
use easysync.Text.Scan.{Unicode}
use easysync.Database.Schema.{user_rows, host_rows}
use easysync.Database.Engine.{Engine, IsReliable}
use easysync.DbManager.{is_sync_needed}
use easysync.DbManager.Execution.{tables_of}
use easysync.DbManager.Quote.{has_quote}
use easysync.DbManager.Sync.{HasTables}
use easysync.Server.Changes.{Ensures}
use easysync.Server.Lists.{returns, at, index_of}
use easysync.Server.{
  Server, read_client, client_disconnected, handle_new_connection, check_clients_connection, pause,
  resume, stop,
}
use easysync.Marks.{Event, marks, is_of}
use easysync.Marks.Events.{told}
use easysync.Marks.Registry.{
  Member, host_at, gone, joins, Agrees, Agrees-at, LeavesAlone, read_client-Agrees,
  client_disconnected-Agrees, check_clients_connection-Agrees, handle_new_connection-Agrees,
}
use easysync.Marks.History.{
  Step, reads, leaves, checks, connects, pauses, resumes, stops, History, begin, then_step,
  is_sync_needed-History,
}

module _ (e : Engine) (k : Unicode) where
  -- What happens to a server, who is registered behind it, and the events: message 2 counts for the
  -- host that has registered from its socket. A registered client that leaves takes no other
  -- member of its name along.
  pub data Traced (start : Server e) (first : List Member)
      : List Member → List Event → Server e → Type 0 where
    started : Traced start first first [] start
    then_read :
        {ms : List Member} {events : List Event} {s s' : Server e} (socket now : ℕ)
        (buffer rest : Text)
        → Traced start first ms events s
        → read_client e k socket now buffer s ≡ returns (rest, s')
        → Traced start first
            (ms ++ joins e k socket s buffer)
            (events
              ++ told k
                  (user_rows (tables_of e s.db_manager))
                  (host_at socket ms)
                  s.disabled
                  buffer)
            s'
    then_left :
        {ms : List Member} {events : List Event} {s s' : Server e} (client : ℕ)
        → Traced start first ms events s
        → LeavesAlone e client ms
        → client_disconnected e (some client) s ≡ returns s'
        → Traced start first (gone client ms) events s'
    then_checked :
        {ms : List Member} {events : List Event} {s s' : Server e} (now : ℕ)
        → Traced start first ms events s
        → check_clients_connection e now s ≡ returns s'
        → Traced start first ms events s'
    then_connected :
        {ms : List Member} {events : List Event} {s : Server e} (pending : List ℕ)
        → Traced start first ms events s
        → Traced start first ms events (handle_new_connection e (record s { pending = pending }))
    then_paused :
        {ms : List Member} {events : List Event} {s : Server e}
        → Traced start first ms events s
        → Traced start first ms events (pause e s)
    then_resumed :
        {ms : List Member} {events : List Event} {s : Server e}
        → Traced start first ms events s
        → Traced start first ms events (resume e s)
    then_stopped :
        {ms : List Member} {events : List Event} {s : Server e}
        → Traced start first ms events s
        → Traced start first ms events (stop e s)

  silently :
      {start s s' : Server e} {events : List Event}
      → History e k start events s
      → Step e k s [] s'
      → History e k start events s'
  silently {start} {s} {s'} {events} h x =
      subst (λ es. History e k start es s') (append-nil events) (then_step h x)

  -- Such a history is a history, and in the end the lists agree with who is registered.
  pub Traced-History :
      {start : Server e} {first ms : List Member} {events : List Event} {s : Server e}
      → Agrees e first start
      → Traced start first ms events s
      → History e k start events s × Agrees e ms s
  unfolding pause resume stop
  Traced-History a started = (begin, a)
  Traced-History {start} a
        (then_read {ms = ms} {events = events} {s = s} {s' = s'} socket now buffer rest t p) =
      let (h, b) = Traced-History a t in
      let users = user_rows (tables_of e s.db_manager) in
      (
        subst (λ who. History e k start (events ++ told k users who s.disabled buffer) s')
            (Agrees-at e ms s socket b) (then_step h (reads socket now buffer rest p)),
        subst (Ensures (λ (v : Text × Server e). Agrees e (ms ++ joins e k socket s buffer) v.1)) p
            (read_client-Agrees e k socket now ms s b buffer),
      )
  Traced-History a (then_left {ms = ms} {s = s} client t alone p) =
      let (h, b) = Traced-History a t in
      (
        silently h (leaves (some client) p),
        subst (Ensures (Agrees e (gone client ms))) p
            (client_disconnected-Agrees e client ms s b alone),
      )
  Traced-History a (then_checked {ms = ms} {s = s} now t p) =
      let (h, b) = Traced-History a t in
      (
        silently h (checks now p),
        subst (Ensures (Agrees e ms)) p (check_clients_connection-Agrees e ms now s b),
      )
  Traced-History a (then_connected {ms = ms} {s = s} pending t) =
      let (h, b) = Traced-History a t in
      (
        silently h (connects pending),
        handle_new_connection-Agrees e ms (record s { pending = pending }) b,
      )
  Traced-History a (then_paused t) = let (h, b) = Traced-History a t in (silently h pauses, b)
  Traced-History a (then_resumed t) = let (h, b) = Traced-History a t in (silently h resumes, b)
  Traced-History a (then_stopped t) = let (h, b) = Traced-History a t in (silently h stops, b)

-- Behind a reliable database with both tables, where no user's name has a `%`, a host whose plain
-- name is in the table, and there of one owner only, is the owner's. A server starts with lists of
-- sockets and host names that agree with who has registered from which socket. Whatever sequence of
-- lines read from any sockets, departures, checks for silent clients, connections, pauses,
-- resumptions and stops it goes through, without reading outside of its lists, and where a
-- registered client that leaves has the same entries under its socket as under its host name,
-- isSyncNeeded of the host is in the end what the events of this history make of its first answer:
-- false once the host that has registered from a socket is the host in question and reports from
-- there that it is done, true once another host of its owner has notified as a valid user, and as
-- it was at any other event. The name that the server looks up for a socket is then still that of
-- the host that has registered from it.
pub is_sync_needed-Traced :
    (e : Engine)
    → IsReliable e
    → (k : Unicode) (start s : Server e) (first ms : List Member) (events : List Event) (owner : ℕ)
      (host : Text)
    → HasTables e start.db_manager
    → has_quote host ≡ false
    → All (λ r. NoPercent r.username) (user_rows (tables_of e start.db_manager))
    → is_of owner host (host_rows (tables_of e start.db_manager)) ≡ true
    → Agrees e first start
    → Traced e k start first ms events s
    → ((is_sync_needed e s.db_manager host).0
        ≡ marks
            (user_rows (tables_of e start.db_manager))
            owner
            host
            events
            (is_sync_needed e start.db_manager host).0)
      × ((socket : ℕ) → at s.peer_names (index_of s.client_connections socket) ≡ host_at socket ms)
is_sync_needed-Traced e rel k start s first ms events owner host tabs plain percent listed a t =
    let (h, b) = Traced-History e k a t in
    (
      is_sync_needed-History e rel k start s events owner host tabs plain percent listed h,
      λ socket. Agrees-at e ms s socket b,
    )
