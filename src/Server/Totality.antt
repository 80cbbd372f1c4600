-- ===== src/Server/Totality.antt =====
-- When the handlers of server/easysyncserver.cpp stay inside of their lists, and when they do not.
use easysync.Prelude.{
  ℕ, zero, suc, ◌<◌, ◌≤◌, ℤ, pos, negsuc, minus_one, ◌≡◌, refl, Bool, true, false, Option, none,
  some, List, [], ◌∷◌, ◌==◌, sym, subst, arith, lt→ltb, length, if◌then◌else◌, Bool-cases, inl, inr,
  All,
}
use easysync.Text.{Text}
use easysync.Text.Scan.{Unicode}
use easysync.Database.Engine.{Engine}
use easysync.DbManager.{is_user_valid, clients_to_sync, set_notify_all_except}
use easysync.Server.Lists.{Run, returns, out_of_range, ◌>>=◌, at, at_index, index_of, next_index}
use easysync.Server.Messages.{is_pingpong, get_user_info, id_of}
use easysync.Server.{
  Server, notify_client, notify_each, handle_over, handle_notify_all, handle_message, handle_line,
  note_alive, authorised,
}
use easysync.Server.Changes.{clients}
use easysync.Server.Reading.{IsAligned}

-- The run returns.
abbrev pub Returns {ℓ} : {A : Type ℓ} → Run A → Type 0
Returns (returns a) = Unit {0}
Returns out_of_range = ⊥

Returns-bind {ℓ κ} :
    {A : Type ℓ} {B : Type κ} (m : Run A) (f : A → Run B)
    → Returns m
    → ((a : A) → Returns (f a))
    → Returns (m >>= f)
Returns-bind (returns a) f h k = k a
Returns-bind out_of_range f h k = absurd h

Returns-if {ℓ} :
    {A : Type ℓ} (b : Bool) (m n : Run A) → Returns m → Returns n → Returns (if b then m else n)
Returns-if true m n hm hn = hm
Returns-if false m n hm hn = hn

at_index-Returns {ℓ} : {A : Type ℓ} (xs : List A) (i : ℕ) → i < length xs → Returns (at_index xs i)
at_index-Returns [] i h = elim h [ ]
at_index-Returns (x ∷ xs) zero h = tt
at_index-Returns (x ∷ xs) (suc i) h = at_index-Returns xs i (omega arith)

pub at_index_beyond {ℓ} :
    {A : Type ℓ} (xs : List A) (i : ℕ) → length xs ≤ i → at_index xs i ≡ out_of_range
at_index_beyond [] i h = refl
at_index_beyond (x ∷ xs) zero h = absurd (omega arith)
at_index_beyond (x ∷ xs) (suc i) h = at_index_beyond xs i (omega arith)

pub next_index-pos : (k : ℤ) (i : ℕ) → next_index k ≡ pos i → (j : ℕ) × (k ≡ pos j) × (i ≡ suc j)
next_index-pos (pos j) i h = (j, refl, ground arith)
next_index-pos (negsuc j) i h = cc

pub index_of-lt-length : (xs : List ℕ) (x i : ℕ) → index_of xs x ≡ pos i → i < length xs
index_of-lt-length [] x i h = cc
index_of-lt-length (y ∷ xs) x i h = elim (Bool-cases (y == x)) [
  | inl p ↦ ground arith
  | inr p ↦
      let (j, a, b) = next_index-pos (index_of xs x) i (rw p at h) in
      omega (arith, index_of-lt-length xs x j a)
]

-- A socket number of the database is -1 or a place in a list of `n` connections.
abbrev pub InRange : ℕ → ℤ → Type 0
InRange n (pos i) = i < n
InRange n (negsuc i) = i ≡ 0

module _ (e : Engine) where
  pub notify_each-Returns :
      (ids : List ℤ) (s : Server e)
      → IsAligned (clients e s)
      → All (InRange (length s.client_connections)) ids
      → Returns (notify_each e ids s)
  notify_each-Returns [] s a h = tt
  notify_each-Returns (negsuc i ∷ ids) s a h = ground (arith, notify_each-Returns ids s a h.1)
  notify_each-Returns (pos i ∷ ids) s a h =
      Returns-bind (at_index s.client_connections i) _ (at_index-Returns s.client_connections i h.0)
        λ client.
          Returns-bind (at_index s.peer_names i) _ (at_index-Returns s.peer_names i (omega arith))
            λ name. notify_each-Returns ids (notify_client e client name s) a h.1

  -- The socket numbers that clientsToSync gives a notification of this user are in range.
  abbrev pub SocketsInRange : Server e → Text → Text → Type 0
  SocketsInRange s username hostname =
      All (InRange (length s.client_connections))
        (clients_to_sync e
          (set_notify_all_except e (is_user_valid e s.db_manager username).1 username hostname)
          username []).0

  note_alive-Returns :
      (i : ℤ) (now : ℕ) (s : Server e)
      → IsAligned (clients e s)
      → InRange (length s.client_connections) i
      → Returns (note_alive e i now s)
  note_alive-Returns (pos i) now s a h = rw (lt→ltb i (length s.client_last_seen) (omega arith)) tt
  note_alive-Returns (negsuc i) now s a h = tt

  authorised-Returns :
      (socket : ℕ) (info : Option (Text × Text)) (next : Text → Text → Server e → Run (Server e))
      (s : Server e)
      → ((username hostname : Text)
          → info ≡ some (username, hostname)
          → Returns (
              next username hostname
                (record s { db_manager = (is_user_valid e s.db_manager username).1 })))
      → Returns (authorised e socket info next s)
  authorised-Returns socket none next s h = tt
  authorised-Returns socket (some (username, hostname)) next s h =
      elim (Bool-cases (is_user_valid e s.db_manager username).0) [
        | inl p ↦ rw p (h username hostname refl)
        | inr p ↦ rw p tt
      ]

  module _ (socket i : ℕ) (s : Server e) (a : IsAligned (clients e s))
      (r : index_of s.client_connections socket ≡ pos i) where
    registered-InRange :
        InRange (length s.client_connections) (index_of s.client_connections socket)
    registered-InRange =
        subst (InRange (length s.client_connections)) (sym r)
          (index_of-lt-length s.client_connections socket i r)

    handle_over-Returns : Returns (handle_over e socket s)
    unfolding handle_over
    handle_over-Returns =
        Returns-bind (at s.peer_names (index_of s.client_connections socket)) _
          (subst (λ k. Returns (at s.peer_names k)) (sym r)
            (at_index-Returns s.peer_names i
              (omega (arith, index_of-lt-length s.client_connections socket i r))))
          λ name. tt

    handle_notify_all-Returns :
        (username hostname : Text)
        → SocketsInRange s username hostname
        → Returns (
            handle_notify_all e username hostname
              (record s { db_manager = (is_user_valid e s.db_manager username).1 }))
    unfolding handle_notify_all
    handle_notify_all-Returns username hostname h = notify_each-Returns _ _ a h

  module _ (u : Unicode) where
    -- With aligned lists the handler of a line that a registered client sends returns, whatever
    -- the line is, if the socket numbers that the database gives for a notification by the user
    -- and the host of that line are -1 or places in the list of connections.
    pub handle_line-Returns :
        (socket now i : ℕ) (line : Text) (s : Server e)
        → IsAligned (clients e s)
        → index_of s.client_connections socket ≡ pos i
        → ((username hostname : Text)
            → get_user_info u line ≡ some (username, hostname)
            → SocketsInRange s username hostname)
        → Returns (handle_line e u socket now line s)
    unfolding handle_line
    handle_line-Returns socket now i line s a r h =
        Returns-if (is_pingpong line) _ _
          (note_alive-Returns (index_of s.client_connections socket) now s a
            (registered-InRange socket i s a r))
          (message (id_of u line))
      where
        message : (id : Option ℕ) → Returns (handle_message e u id socket now line s)
        message none = tt
        message (some id) =
            Returns-if (id == 1) _ _
              (authorised-Returns socket (get_user_info u line) _ s λ username hostname p. tt)
              (Returns-if (id == 2) _ _ (handle_over-Returns socket i s a r) (
                Returns-if (id == 3) _ _
                  (authorised-Returns socket (get_user_info u line) _ s λ username hostname p.
                    handle_notify_all-Returns socket i s a r username hostname
                      (h username hostname p))
                  tt))

    -- Message 2 from a socket that has not registered reads the list of host names at -1,
    -- outside of its bounds.
    pub handle_message-over_unregistered :
        (socket now : ℕ) (line : Text) (s : Server e)
        → index_of s.client_connections socket ≡ minus_one
        → handle_message e u (some 2) socket now line s ≡ out_of_range
    unfolding handle_message
    handle_message-over_unregistered socket now line s r = rw r
