-- ===== src/Server/Departure.antt =====
-- `clientDisconnected` of server/easysyncserver.cpp: what a client that leaves takes out of the
-- three lists, and what it leaves in the database.
use easysync.Prelude.{
  ℕ, suc, ◌+◌, ◌≤◌, ℤ, pos, ◌≡◌, ◌↔◌, Bool, true, false, some, List, [], ◌∷◌, ◌==◌, ap, ◌∙◌, sym,
  subst, arith, length, if◌then◌else◌, Bool-cases, inl, inr,
}
use easysync.Text.{Text, text_eq}
use easysync.Database.Engine.{Engine}
use easysync.DbManager.{void_connection}
use easysync.DbManager.Execution.{tables_of}
use easysync.DbManager.Voiding.{found, void_connection-other_host}
use easysync.Server.Lists.{returns, out_of_range, at, index_of, remove_all}
use easysync.Server.{
  Server, nat_eq, client_disconnected, notify_each, emit, stop_when_empty, deletes,
}
use easysync.Server.Changes.{Clients, clients}
use easysync.Server.Reading.{IsAligned}
use easysync.Server.Totality.{at_index_beyond, next_index-pos}

-- How often `x` stands in a list.
abbrev pub count {ℓ} : {A : Type ℓ} → (A → A → Bool) → A → List A → ℕ
count eq x [] = 0
count eq x (y ∷ ys) = (if eq y x then 1 else 0) + count eq x ys

pub length-remove_all {ℓ} :
    {A : Type ℓ} (eq : A → A → Bool) (xs : List A) (x : A)
    → length (remove_all eq xs x) + count eq x xs ≡ length xs
length-remove_all eq [] x = omega arith
length-remove_all eq (y ∷ ys) x = ground (arith, length-remove_all eq ys x)

count-index_of : (xs : List ℕ) (x i : ℕ) → index_of xs x ≡ pos i → 1 ≤ count nat_eq x xs
count-index_of [] x i h = cc
count-index_of (y ∷ xs) x i h = elim (Bool-cases (y == x)) [
  | inl p ↦ rw p (omega arith)
  | inr p ↦
      let (j, a, b) = next_index-pos (index_of xs x) i (rw p at h) in
      rw p (omega (arith, count-index_of xs x j a))
]

module _ (e : Engine) where
  -- The clients after the registered client at place `i` has left: its socket, and every host name
  -- and every time equal to its own.
  abbrev pub without : ℕ → Text → ℕ → Clients → Clients
  without client hostname last_seen c = record {
    connections = remove_all nat_eq c.connections client;
    names = remove_all text_eq c.names hostname;
    times = remove_all nat_eq c.times last_seen;
  }

  pub clients-stop_when_empty :
      (s : Server e) (client : ℕ)
      → clients e (emit e (deletes client) (stop_when_empty e s)) ≡ clients e s
  clients-stop_when_empty s client = elim (Bool-cases (length s.client_connections == 0)) [
    | inl p ↦ ground arith
    | inr p ↦ ground arith
  ]

  module _ (s : Server e) (client i : ℕ) (hostname : Text) (last_seen : ℕ)
      (place : index_of s.client_connections client ≡ pos i)
      (name : at s.peer_names (pos i) ≡ returns hostname)
      (time : at s.client_last_seen (pos i) ≡ returns last_seen) where
    abbrev left : Server e
    left = record s {
      db_manager = void_connection e s.db_manager hostname;
      client_connections = remove_all nat_eq s.client_connections client;
      peer_names = remove_all text_eq s.peer_names hostname;
      client_last_seen = remove_all nat_eq s.client_last_seen last_seen;
    }

    pub client_disconnected_lem :
        client_disconnected e (some client) s
        ≡ returns (emit e (deletes client) (stop_when_empty e left))
    unfolding client_disconnected
    client_disconnected_lem = rw (place, name, time)

    -- The lists stay aligned exactly if the host name and the time of the client that leaves stand
    -- in their lists as often as its socket in its own.
    pub without-IsAligned :
        IsAligned (clients e s)
        → IsAligned (without client hostname last_seen (clients e s)) ↔ (
            (count text_eq hostname s.peer_names ≡ count nat_eq client s.client_connections)
            × (count nat_eq last_seen s.client_last_seen
                ≡ count nat_eq client s.client_connections))
    without-IsAligned a = (
      λ b. omega (
        arith,
        length-remove_all nat_eq s.client_connections client,
        length-remove_all text_eq s.peer_names hostname,
        length-remove_all nat_eq s.client_last_seen last_seen,
      ),
      λ b. omega (
        arith,
        length-remove_all nat_eq s.client_connections client,
        length-remove_all text_eq s.peer_names hostname,
        length-remove_all nat_eq s.client_last_seen last_seen,
      ),
    )

    -- What is left after the departure: these lists, and the database with the connection voided.
    pub client_disconnected-clients :
        (s' : Server e) × (client_disconnected e (some client) s ≡ returns s')
        × (clients e s' ≡ without client hostname last_seen (clients e s))
        × (s'.db_manager ≡ void_connection e s.db_manager hostname)
    client_disconnected-clients = (
      emit e (deletes client) (stop_when_empty e left),
      client_disconnected_lem,
      clients-stop_when_empty left client,
      ground arith,
    )

    -- The departure of a registered client from aligned lists, with its host name and its time
    -- there, is carried out, and the lists stay aligned exactly if its host name and its time
    -- stand in their lists as often as its socket in its own: one that shares its host name or
    -- its time with another takes the other's entry away too.
    pub client_disconnected-IsAligned :
        IsAligned (clients e s)
        → (s' : Server e) × (client_disconnected e (some client) s ≡ returns s')
          × (IsAligned (clients e s') ↔ (
              (count text_eq hostname s.peer_names ≡ count nat_eq client s.client_connections)
              × (count nat_eq last_seen s.client_last_seen
                  ≡ count nat_eq client s.client_connections)))
    client_disconnected-IsAligned a =
        let (s', returned, lists, database) = client_disconnected-clients in
        (
          s',
          returned,
          subst
              (λ c. IsAligned c ↔ (
                (count text_eq hostname s.peer_names ≡ count nat_eq client s.client_connections)
                × (count nat_eq last_seen s.client_last_seen
                    ≡ count nat_eq client s.client_connections)))
              (sym lists) (without-IsAligned a),
        )

    -- When a registered client leaves, with its host name and its time in the lists, and the
    -- database holds the last place of the list of connections as the socket of a host of
    -- another name, then that host keeps this number, and a notification that begins with it
    -- reads the list of connections outside of its bounds.
    pub stale_socket_number :
        (n : ℕ) (h : Text) (ids : List ℤ)
        → length s.client_connections ≡ suc n
        → found (tables_of e s.db_manager) h (pos n) ≡ true
        → text_eq hostname h ≡ false
        → (s' : Server e) × (client_disconnected e (some client) s ≡ returns s')
          × (found (tables_of e s'.db_manager) h (pos n) ≡ true)
          × (notify_each e (pos n ∷ ids) s' ≡ out_of_range)
    stale_socket_number n h ids len held other =
        let (s', returned, lists, database) = client_disconnected-clients in
        let fewer : length s'.client_connections ≤ n = omega (
          arith,
          ap (λ (c : Clients). length c.connections) lists,
          length-remove_all nat_eq s.client_connections client,
          count-index_of s.client_connections client i place,
        ) in
        (
          s',
          returned,
          ap (λ m. found (tables_of e m) h (pos n)) database
              ∙ void_connection-other_host e s.db_manager hostname h (pos n) other
              ∙ held,
          rw (at_index_beyond s'.client_connections n fewer),
        )
