-- ===== src/Places/History.antt =====
-- Histories of a server (server/easysyncserver.cpp) in which no registered client leaves: its handlers stay
-- inside of their lists.
use easysync.Prelude.{
  ℕ, ℤ, pos, negsuc, ◌≡◌, refl, Bool, true, false, Option, none, some, List, [], ◌∷◌, subst, All,
  length, if_intro, ◌==◌,
}
use easysync.Text.{Text}
use easysync.Text.Format.{NoPercent}
use easysync.Text.Scan.{Unicode}
use easysync.Database.Schema.{User, user_rows, host_rows}
use easysync.Database.Engine.{Engine, IsReliable}
use easysync.DbManager.{is_user_valid}
use easysync.DbManager.Asked.{clients_to_sync-All}
use easysync.DbManager.Execution.{tables_of}
use easysync.DbManager.Sync.{HasTables}
use easysync.DbManager.Users.{tables-is_user_valid}
use easysync.Server.Changes.{Ensures, Ensures-bind, clients}
use easysync.Server.Lists.{index_of}
use easysync.Server.Reading.{IsAligned, read_client-IsAligned}
use easysync.Server.Totality.{InRange, Returns, handle_line-Returns}
use easysync.Server.{
  Server, handle_line, client_disconnected, check_clients_connection, handle_new_connection, pause,
  resume, stop, accept_each, disconnect_each, silent, emit, deletes,
}
use easysync.Marks.{Event}
use easysync.Marks.History.{
  Step, reads, leaves, checks, connects, pauses, resumes, stops, History, begin, then_step,
}
use easysync.Places.{InPlace}
use easysync.Places.Handlers.{read_client-InPlace}
use easysync.Places.Methods.{Stays-IsPlaced}

abbrev is_negative : ℤ → Bool
is_negative (pos i) = false
is_negative (negsuc i) = true

-- No socket of the list leaves.
abbrev is_unlisted : List ℕ → Option ℕ → Bool
is_unlisted cs none = true
is_unlisted cs (some client) = is_negative (index_of cs client)

module _ (e : Engine) (k : Unicode) where
  abbrev Unleft : {s s' : Server e} {events : List Event} → Step e k s events s' → Type 0
  Unleft (leaves {s = s} client p) = is_unlisted s.client_connections client ≡ true
  Unleft _ = Unit {0}

  -- No registered client leaves in the history.
  abbrev pub NoneLeft :
      {start s : Server e} {events : List Event} → History e k start events s → Type 0
  NoneLeft begin = Unit {0}
  NoneLeft (then_step h x) = NoneLeft h × Unleft x

-- What such a history keeps.
record IsOrderly (e : Engine) (users : List User) (s : Server e) : Type 0 where
  aligned : IsAligned (clients e s)
  in_place : InPlace e users s

module _ (e : Engine) (rel : IsReliable e) (k : Unicode) (users : List User)
    (percent : All (λ r. NoPercent r.username) users) where
  abbrev Kept : Server e → Type 0
  Kept = IsOrderly e users

  client_disconnected-IsOrderly :
      (client : Option ℕ) (s : Server e)
      → is_unlisted s.client_connections client ≡ true
      → Kept s
      → Ensures Kept (client_disconnected e client s)
  unfolding client_disconnected
  client_disconnected-IsOrderly none s p m = m
  client_disconnected-IsOrderly (some client) s p m = go (index_of s.client_connections client) refl
    where
      go :
          (i : ℤ)
          → index_of s.client_connections client ≡ i
          → Ensures Kept (client_disconnected e (some client) s)
      go (pos i) q = cc
      go (negsuc i) q = rw q (
          if_intro (λ t. Kept (emit e (deletes client) t)) (length s.client_connections == 0) _ s
            (λ _. record { aligned = m.aligned; in_place = m.in_place })
            (λ _. record { aligned = m.aligned; in_place = m.in_place }))

  disconnect_each-IsOrderly :
      (must : List ℕ) (s : Server e) → Kept s → Kept (disconnect_each e must s)
  disconnect_each-IsOrderly [] s m = m
  disconnect_each-IsOrderly (client ∷ must) s m =
      disconnect_each-IsOrderly must _ (record { aligned = m.aligned; in_place = m.in_place })

  accept_each-IsOrderly : (cs : List ℕ) (s : Server e) → Kept s → Kept (accept_each e cs s)
  accept_each-IsOrderly [] s m = record { aligned = m.aligned; in_place = m.in_place }
  accept_each-IsOrderly (c ∷ cs) s m =
      accept_each-IsOrderly cs _ (record { aligned = m.aligned; in_place = m.in_place })

  Step-IsOrderly :
      {s s' : Server e} {events : List Event} (x : Step e k s events s')
      → Unleft e k x
      → Kept s
      → Kept s'
  unfolding pause resume stop check_clients_connection handle_new_connection
  Step-IsOrderly (reads {s = s} {s' = s'} socket now buffer rest p) u m = record {
    aligned = read_client-IsAligned e k socket now buffer s (rest, s') m.aligned p;
    in_place =
        subst (Ensures (λ (v : Text × Server e). InPlace e users v.1)) p
          (read_client-InPlace e rel users percent k socket now s m.in_place buffer);
  }
  Step-IsOrderly (leaves {s = s} client p) u m =
      subst (Ensures Kept) p (client_disconnected-IsOrderly client s u m)
  Step-IsOrderly (checks {s = s} now p) u m = subst (Ensures Kept) p (
      Ensures-bind Kept (silent e 0 now s.client_last_seen s.client_connections) _
        λ must. disconnect_each-IsOrderly must s m)
  Step-IsOrderly (connects {s = s} pending) u m =
      let s' : Server e = record s { pending = pending } in
      let m' : Kept s' = record { aligned = m.aligned; in_place = m.in_place } in
      if_intro Kept s.disabled s' _ (λ _. m') (λ _. accept_each-IsOrderly pending s' m')
  Step-IsOrderly pauses u m = record { aligned = m.aligned; in_place = m.in_place }
  Step-IsOrderly resumes u m = record { aligned = m.aligned; in_place = m.in_place }
  Step-IsOrderly stops u m = record { aligned = m.aligned; in_place = m.in_place }

  History-IsOrderly :
      {start s : Server e} {events : List Event} (h : History e k start events s)
      → NoneLeft e k h
      → Kept start
      → Kept s
  History-IsOrderly begin u m = m
  History-IsOrderly (then_step h x) u m = Step-IsOrderly x u.1 (History-IsOrderly h u.0 m)

-- Behind a reliable database with both tables, where no user's name has a `%`, a server starts with
-- aligned lists and with every socket number of the table -1 or a place in them. As long as no
-- registered client leaves, whatever lines are read from any sockets, whichever sockets connect or
-- leave that have not registered, and however often the server checks, pauses, resumes or stops,
-- and where none of these steps reads outside of its lists, as message 2 of a socket that has not
-- registered does, the handler of a registered client's line stays inside of the lists, whatever
-- the line is.
pub handle_line-NoneLeft :
    (e : Engine)
    → IsReliable e
    → (k : Unicode) (start s : Server e) (events : List Event) → HasTables e start.db_manager
    → All (λ r. NoPercent r.username) (user_rows (tables_of e start.db_manager))
    → IsAligned (clients e start)
    → All
        (λ r. InRange (length start.client_connections) r.socket_id)
        (host_rows (tables_of e start.db_manager))
    → (h : History e k start events s) → NoneLeft e k h
    → (socket now i : ℕ) (line : Text) → index_of s.client_connections socket ≡ pos i
    → Returns (handle_line e k socket now line s)
handle_line-NoneLeft e rel k start s events tabs percent aligned in_range h u socket now i line r =
    let users = user_rows (tables_of e start.db_manager) in
    let n = length s.client_connections in
    let m = History-IsOrderly e rel k users percent h u (record {
      aligned = aligned;
      in_place = record { tabs = tabs; known = refl; in_range = in_range };
    }) in
    handle_line-Returns e k socket now i line s m.aligned r λ username hostname p.
      let v = (is_user_valid e s.db_manager username).1 in
      let placed =
        Stays-IsPlaced e users n s.db_manager v (tables-is_user_valid e s.db_manager username)
          m.in_place in
      clients_to_sync-All e rel (InRange n) v username hostname placed.tabs placed.in_range
