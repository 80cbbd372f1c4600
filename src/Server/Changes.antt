-- ===== src/Server/Changes.antt =====
-- What a message does to the clients that class EasysyncServer keeps
-- (server/easysyncserver.cpp, readClient).
use easysync.Prelude.{
  ℕ, ℤ, pos, negsuc, ◌≡◌, refl, Bool, true, false, Option, none, some, List, [], ◌∷◌, ◌==◌, ap, ◌∙◌,
  subst, arith, length, set, ltb, if◌then◌else◌, Bool-cases, inl, inr,
}
use easysync.Text.{Text}
use easysync.Text.Scan.{Unicode}
use easysync.Database.Engine.{Engine}
use easysync.DbManager.{is_user_valid, clients_to_sync, set_notify_all_except}
use easysync.DbManager.Quote.{has_quote}
use easysync.DbManager.Execution.{tables_of}
use easysync.DbManager.Users.{is_known, is_user_valid-is_known}
use easysync.Server.Lists.{Run, returns, out_of_range, ◌>>=◌, at, append, index_of}
use easysync.Server.Messages.{is_pingpong, get_user_info, id_of}
use easysync.Server.{
  Server, register, notify_each, notify_clients, handle_over, handle_notify_all, handle_message,
  handle_line, authorised, note_alive,
}

-- The three parallel lists.
pub record Clients : Type 0 where
  pub connections : List ℕ
  pub names : List Text
  pub times : List ℕ

-- What holds of a result if the handler returns.
abbrev pub Ensures {ℓ κ} : {A : Type ℓ} → (A → Type κ) → Run A → Type κ
Ensures P (returns a) = P a
Ensures P out_of_range = Unit

pub Ensures-bind {ℓ κ ℓ'} :
    {A : Type ℓ} {B : Type κ} (P : B → Type ℓ') (m : Run A) (f : A → Run B)
    → ((a : A) → Ensures P (f a))
    → Ensures P (m >>= f)
Ensures-bind P (returns a) f h = h a
Ensures-bind P out_of_range f h = tt

pub Ensures-then {ℓ κ ℓ' κ'} :
    {A : Type ℓ} {B : Type κ} (P : A → Type ℓ') (Q : B → Type κ') (m : Run A) (f : A → Run B)
    → Ensures P m
    → ((a : A) → P a → Ensures Q (f a))
    → Ensures Q (m >>= f)
Ensures-then P Q (returns a) f p h = h a p
Ensures-then P Q out_of_range f p h = tt

pub Ensures-if {ℓ κ} :
    {A : Type ℓ} (P : A → Type κ) (b : Bool) (m n : Run A)
    → Ensures P m
    → Ensures P n
    → Ensures P (if b then m else n)
Ensures-if P true m n hm hn = hm
Ensures-if P false m n hm hn = hn

-- A client joins at the end of each list.
abbrev pub join : ℕ → Text → ℕ → Clients → Clients
join socket hostname now c = record {
  connections = append c.connections socket;
  names = append c.names hostname;
  times = append c.times now;
}

module _ (e : Engine) where
  abbrev pub clients : Server e → Clients
  clients s = record {
    connections = s.client_connections;
    names = s.peer_names;
    times = s.client_last_seen;
  }

  abbrev pub Same : Clients → Server e → Type 0
  Same c s = clients s ≡ c

  notify_each-clients :
      (ids : List ℤ) (s : Server e) → Ensures (Same (clients s)) (notify_each e ids s)
  notify_each-clients [] s = refl
  notify_each-clients (negsuc i ∷ ids) s = elim (Bool-cases (i == 0)) [
    | inl p ↦ rw p (notify_each-clients ids s)
    | inr p ↦ rw p tt
  ]
  notify_each-clients (pos i ∷ ids) s =
      Ensures-bind (Same (clients s)) (at s.client_connections (pos i)) _ λ client.
        Ensures-bind (Same (clients s)) (at s.peer_names (pos i)) _
          λ name. notify_each-clients ids _

  pub handle_over-clients :
      (socket : ℕ) (s : Server e) → Ensures (Same (clients s)) (handle_over e socket s)
  unfolding handle_over
  handle_over-clients socket s =
      Ensures-bind (Same (clients s)) (at s.peer_names (index_of s.client_connections socket)) _
        λ name. refl

  pub register-clients :
      (socket : ℕ) (username hostname : Text) (now : ℕ) (s : Server e)
      → clients (register e socket username hostname now s) ≡ join socket hostname now (clients s)
  unfolding register
  register-clients socket username hostname now s = ground arith

  notify_clients-clients :
      (username : Text) (s : Server e) → Ensures (Same (clients s)) (notify_clients e username s)
  unfolding notify_clients
  notify_clients-clients username s =
      let (sockets, m) = clients_to_sync e s.db_manager username [] in
      notify_each-clients sockets (record s { db_manager = m })

  pub handle_notify_all-clients :
      (username hostname : Text) (s s' : Server e)
      → clients s' ≡ clients s
      → Ensures (Same (clients s)) (handle_notify_all e username hostname s')
  unfolding handle_notify_all
  handle_notify_all-clients username hostname s s' q =
      subst (λ c. Ensures (Same c) (handle_notify_all e username hostname s')) q
        (notify_clients-clients username
          (record s' { db_manager = set_notify_all_except e s'.db_manager username hostname }))

  -- A line of `socket` leaves the clients as they are, notes when the client was seen, or lets it
  -- join under a host name, and then for a user whom the table knows.
  pub data Change (socket now : ℕ) (s : Server e) (s' : Server e) : Type 0 where
    kept : clients s' ≡ clients s → Change socket now s s'
    seen :
        (i : ℕ)
        → index_of s.client_connections socket ≡ pos i
        → clients s' ≡ record (clients s) { times = set s.client_last_seen i now }
        → Change socket now s s'
    joined :
        (username hostname : Text)
        → is_known username (tables_of e s.db_manager) ≡ true
        → has_quote username ≡ false
        → clients s' ≡ join socket hostname now (clients s)
        → Change socket now s s'

  module _ (socket now : ℕ) where
    Ensures-kept :
        (s : Server e) (m : Run (Server e))
        → Ensures (Same (clients s)) m
        → Ensures (Change socket now s) m
    Ensures-kept s (returns s') h = kept h
    Ensures-kept s out_of_range h = tt

    note_alive-Change :
        (i : ℤ) (s : Server e)
        → index_of s.client_connections socket ≡ i
        → Ensures (Change socket now s) (note_alive e i now s)
    note_alive-Change (negsuc i) s p = kept refl
    note_alive-Change (pos i) s p = elim (Bool-cases (ltb i (length s.client_last_seen))) [
      | inl q ↦ rw q (seen i p refl)
      | inr q ↦ rw q tt
    ]

    -- A message that needs a valid user: without one nothing changes but the database handle.
    authorised-Change :
        (info : Option (Text × Text)) (next : Text → Text → Server e → Run (Server e))
        (s : Server e)
        → ((username hostname : Text) (s' : Server e)
            → clients s' ≡ clients s
            → is_known username (tables_of e s.db_manager) ≡ true
            → has_quote username ≡ false
            → Ensures (Change socket now s) (next username hostname s'))
        → Ensures (Change socket now s) (authorised e socket info next s)
    authorised-Change none next s h = kept refl
    authorised-Change (some (username, hostname)) next s h =
        elim (Bool-cases (is_user_valid e s.db_manager username).0) [
          | inl p ↦
              let known = is_user_valid-is_known e s.db_manager username p in
              rw p (h username hostname _ refl known.0 known.1)
          | inr p ↦ rw p (kept refl)
        ]

    module _ (u : Unicode) where
      handle_message-Change :
          (id : Option ℕ) (message : Text) (s : Server e)
          → Ensures (Change socket now s) (handle_message e u id socket now message s)
      unfolding handle_message
      handle_message-Change none message s = kept refl
      handle_message-Change (some id) message s =
          Ensures-if (Change socket now s) (id == 1) _ _
            (authorised-Change (get_user_info u message) _ s λ username hostname s' q known plain.
              joined username hostname known plain (
                register-clients socket username hostname now s' ∙ ap (join socket hostname now) q))
            (Ensures-if (Change socket now s) (id == 2) _ _
              (Ensures-kept s _ (handle_over-clients socket s))
              (Ensures-if (Change socket now s) (id == 3) _ _
                (authorised-Change (get_user_info u message) _ s
                  λ username hostname s' q known plain.
                    Ensures-kept s _ (handle_notify_all-clients username hostname s s' q))
                (kept refl)))

      pub handle_line-Ensures :
          (message : Text) (s : Server e)
          → Ensures (Change socket now s) (handle_line e u socket now message s)
      unfolding handle_line
      handle_line-Ensures message s = elim (Bool-cases (is_pingpong message)) [
        | inl p ↦ rw p (note_alive-Change (index_of s.client_connections socket) s refl)
        | inr p ↦ rw p (handle_message-Change (id_of u message) message s)
      ]

      -- Whatever line a socket sends and in whatever state, if the handler returns, without
      -- reading outside of its lists, then one of three things holds of the lists of clients:
      -- they are as they were; or only the time at the sending client's place is set; or the
      -- socket joins at the end of each list under some host name, and a user name without a
      -- quote is in the users table. Nothing is assumed of the database but its interface.
      pub handle_line-Change :
          (message : Text) (s s' : Server e)
          → handle_line e u socket now message s ≡ returns s'
          → Change socket now s s'
      handle_line-Change message s s' r =
          subst (Ensures (Change socket now s)) r (handle_line-Ensures message s)
