-- ===== src/Marks/Lines.antt =====
-- What a line of a socket does to the mark of one host (server/easysyncserver.cpp, readClient).
use easysync.Prelude.{
  ℕ, ℤ, pos, negsuc, ◌≡◌, Bool, true, false, Option, none, some, List, [], ◌==◌, if◌then◌else◌, ltb,
  length, Bool-cases, inl, inr, All,
}
use easysync.Text.{Text}
use easysync.Text.Format.{NoPercent}
use easysync.Text.Scan.{Unicode}
use easysync.Database.Schema.{User}
use easysync.Database.Engine.{Engine, IsReliable}
use easysync.DbManager.Quote.{has_quote}
use easysync.Server.Changes.{Ensures}
use easysync.Server.Lists.{Run, returns, out_of_range, ◌>>=◌, index_of}
use easysync.Server.Messages.{read_line, is_pingpong, get_user_info, id_of}
use easysync.Server.{Server, handle_message, handle_line, read_client, read_buffered, note_alive}
use easysync.Marks.{Event, marks}
use easysync.Marks.Events.{message_events, line_events, buffer_events, read_events}
use easysync.Marks.Handlers.{Marked, handle_over-Marked, register_info-Marked, notify_info-Marked}

module _ (e : Engine) (rel : IsReliable e) (users : List User) (owner : ℕ) (host : Text)
    (plain : has_quote host ≡ false) (percent : All (λ r. NoPercent r.username) users) (k : Unicode)
    (socket now : ℕ) (b : Bool) (s : Server e) (m : Marked e users owner host b s) where
  -- The mark after these events.
  abbrev After : List Event → Server e → Type 0
  After events = Marked e users owner host (marks users owner host events b)

  handle_message-After :
      (id : Option ℕ) (message : Text)
      → Ensures
          (After (message_events e k users socket id message s))
          (handle_message e k id socket now message s)
  unfolding handle_message
  handle_message-After none message = m
  handle_message-After (some id) message = elim (Bool-cases (id == 1)) [
    | inl p ↦ rw p (
        register_info-Marked e rel users owner host plain percent b socket now
          (get_user_info k message) s m)
    | inr p ↦ elim (Bool-cases (id == 2)) [
      | inl q ↦ rw (p, q) (handle_over-Marked e rel users owner host plain percent b socket s m)
      | inr q ↦ elim (Bool-cases (id == 3)) [
        | inl r ↦
            rw (p, q, r)
              (notify_info-Marked e rel users owner host plain percent b socket
                (get_user_info k message) s m)
        | inr r ↦ rw (p, q, r) m
      ]
    ]
  ]

  note_alive-After : (i : ℤ) → Ensures (After []) (note_alive e i now s)
  note_alive-After (negsuc i) = m
  note_alive-After (pos i) = elim (Bool-cases (ltb i (length s.client_last_seen))) [
    | inl p ↦ rw p m
    | inr p ↦ rw p tt
  ]

  handle_line-After :
      (message : Text)
      → Ensures
          (After (line_events e k users socket message s))
          (handle_line e k socket now message s)
  unfolding handle_line
  handle_line-After message = elim (Bool-cases (is_pingpong message)) [
    | inl p ↦ rw p (note_alive-After (index_of s.client_connections socket))
    | inr p ↦ rw p (handle_message-After (id_of k message) message)
  ]

  read_buffered-After :
      (o : Option (Text × Text)) (buffer : Text)
      → Ensures
          (λ (v : Text × Server e). After (buffer_events e k users socket o s) v.1)
          (read_buffered e k socket now o buffer s)
  read_buffered-After none buffer = m
  read_buffered-After (some (line, rest)) buffer =
      go (handle_line e k socket now line s) (handle_line-After line)
    where
      go :
          (r : Run (Server e))
          → Ensures (After (line_events e k users socket line s)) r
          → Ensures
              (λ (v : Text × Server e). After (line_events e k users socket line s) v.1)
              (r >>= λ s'. returns (rest, s'))
      go (returns s') h = h
      go out_of_range h = tt

  pub read_client-After :
      (buffer : Text)
      → Ensures
          (λ (v : Text × Server e). After (read_events e k users socket buffer s) v.1)
          (read_client e k socket now buffer s)
  unfolding read_client
  read_client-After buffer = go s.disabled
    where
      go :
          (paused : Bool)
          → Ensures
              (λ (v : Text × Server e).
                After
                  (if paused then [] else buffer_events e k users socket (read_line buffer) s)
                  v.1)
              (if paused
                then returns (buffer, s)
                else read_buffered e k socket now (read_line buffer) buffer s)
      go true = m
      go false = read_buffered-After (read_line buffer) buffer
