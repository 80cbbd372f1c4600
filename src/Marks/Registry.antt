-- ===== src/Marks/Registry.antt =====
-- Who has registered from which socket, kept apart from the lists of server/easysyncserver.cpp; and when
-- those lists say the same.
use easysync.Prelude.{
  ℕ, ℤ, pos, negsuc, ◌≡◌, refl, Bool, true, false, not, Option, none, some, List, [], ◌∷◌, ◌++◌,
  ◌==◌, map, map-append, append-nil, filter, All, ap, ◌∙◌, sym, subst, arith, ltb, length,
  if◌then◌else◌, if_intro, Bool-cases, inl, inr,
}
use easysync.Text.{Text, text_eq}
use easysync.Text.Scan.{Unicode}
use easysync.Database.Engine.{Engine}
use easysync.DbManager.{is_user_valid}
use easysync.Server.Lists.{Run, returns, out_of_range, at, index_of, next_index, remove_all}
use easysync.Server.Messages.{read_line, is_pingpong, get_user_info, id_of}
use easysync.Server.Changes.{
  Clients, clients, Same, Ensures, Ensures-bind, Ensures-then, handle_over-clients,
  register-clients, handle_notify_all-clients,
}
use easysync.Server.Departure.{clients-stop_when_empty}
use easysync.Server.{
  Server, nat_eq, register, handle_notify_all, read_client, read_buffered, handle_line,
  handle_message, authorised, note_alive, client_disconnected, forget, disconnect_each, accept_each,
  silent, check_clients_connection, handle_new_connection,
}

pub record Member : Type 0 where
  pub socket : ℕ
  pub host : Text

abbrev pub sockets : List Member → List ℕ
sockets = map (λ m. m.socket)

abbrev pub hosts : List Member → List Text
hosts = map (λ m. m.host)

-- The host that has registered from a socket.
abbrev pub host_at : ℕ → List Member → Run Text
host_at socket [] = out_of_range
host_at socket (m ∷ ms) = if m.socket == socket then returns m.host else host_at socket ms

-- The members once a socket is gone.
abbrev pub gone : ℕ → List Member → List Member
gone client = filter (λ m. not (m.socket == client))

at-next_index : (x : Text) (xs : List Text) (i : ℤ) → at (x ∷ xs) (next_index i) ≡ at xs i
at-next_index x xs (pos i) = refl
at-next_index x xs (negsuc i) = refl

pub at-hosts :
    (socket : ℕ) (ms : List Member)
    → at (hosts ms) (index_of (sockets ms) socket) ≡ host_at socket ms
at-hosts socket [] = refl
at-hosts socket (m ∷ ms) =
    ground
      (arith, at-next_index m.host (hosts ms) (index_of (sockets ms) socket), at-hosts socket ms)

sockets-gone :
    (client : ℕ) (ms : List Member)
    → sockets (gone client ms) ≡ remove_all nat_eq (sockets ms) client
sockets-gone client [] = refl
sockets-gone client (m ∷ ms) = ground (arith, sockets-gone client ms)

hosts-gone :
    (client : ℕ) (host : Text) (ms : List Member)
    → All (λ m. (m.socket == client) ≡ text_eq m.host host) ms
    → hosts (gone client ms) ≡ remove_all text_eq (hosts ms) host
hosts-gone client host [] a = refl
hosts-gone client host (m ∷ ms) a = ground (arith, a.0, hosts-gone client host ms a.1)

gone-absent :
    (client : ℕ) (ms : List Member) → host_at client ms ≡ out_of_range → gone client ms ≡ ms
gone-absent client [] h = refl
gone-absent client (m ∷ ms) h = elim (Bool-cases (m.socket == client)) [
  | inl p ↦ cc
  | inr p ↦ rw p (ap (◌∷◌ m) (gone-absent client ms (rw p at h)))
]

-- The lists of connections and of names are those of the members.
pub record IsListOf (ms : List Member) (c : Clients) : Type 0 where
  pub connections : c.connections ≡ sockets ms
  pub names : c.names ≡ hosts ms

module _ (e : Engine) where
  abbrev pub Agrees : List Member → Server e → Type 0
  Agrees ms s = IsListOf ms (clients e s)

  -- So the server takes the host of a socket for the one that has registered from it.
  pub Agrees-at :
      (ms : List Member) (s : Server e) (socket : ℕ)
      → Agrees ms s
      → at s.peer_names (index_of s.client_connections socket) ≡ host_at socket ms
  Agrees-at ms s socket a =
      ap (λ n. at n (index_of s.client_connections socket)) a.names
      ∙ ap (λ c. at (hosts ms) (index_of c socket)) a.connections
      ∙ at-hosts socket ms

  Agrees-Same :
      (ms : List Member) (s : Server e) (m : Run (Server e))
      → Agrees ms s
      → Ensures (Same e (clients e s)) m
      → Ensures (Agrees ms) m
  Agrees-Same ms s (returns s') a p = subst (IsListOf ms) (sym p) a
  Agrees-Same ms s out_of_range a p = tt

  -- Who registers by a line of a socket: the host of a greeting whose user the server accepts.
  module _ (k : Unicode) (socket : ℕ) (s : Server e) where
    abbrev accepted : Option (Text × Text) → List Member
    accepted none = []
    accepted (some (username, hostname)) =
        if (is_user_valid e s.db_manager username).0
        then record { socket = socket; host = hostname } ∷ []
        else []

    abbrev message_joins : Option ℕ → Text → List Member
    message_joins none message = []
    message_joins (some id) message = if id == 1 then accepted (get_user_info k message) else []

    abbrev line_joins : Text → List Member
    line_joins message = if is_pingpong message then [] else message_joins (id_of k message) message

    abbrev buffer_joins : Option (Text × Text) → List Member
    buffer_joins none = []
    buffer_joins (some (line, rest)) = line_joins line

    abbrev pub joins : Text → List Member
    joins buffer = if s.disabled then [] else buffer_joins (read_line buffer)

  module _ (k : Unicode) (socket now : ℕ) (ms : List Member) (s : Server e) (a : Agrees ms s) where
    abbrev Joined : List Member → Server e → Type 0
    Joined more = Agrees (ms ++ more)

    unchanged : Agrees (ms ++ []) s
    unchanged = subst (λ ms. Agrees ms s) (sym (append-nil ms)) a

    unchanged-Same :
        (m : Run (Server e)) → Ensures (Same e (clients e s)) m → Ensures (Agrees (ms ++ [])) m
    unchanged-Same m p = Agrees-Same (ms ++ []) s m unchanged p

    greeted :
        (info : Option (Text × Text))
        → Ensures (Joined (accepted k socket s info)) (
            authorised e socket info
              (λ username hostname s'. returns (register e socket username hostname now s'))
              s)
    greeted none = unchanged
    greeted (some (username, hostname)) =
        elim (Bool-cases (is_user_valid e s.db_manager username).0) [
          | inl p ↦
              let m : Member = record { socket = socket; host = hostname } in
              let lists =
                register-clients e socket username hostname now
                  (record s { db_manager = (is_user_valid e s.db_manager username).1 }) in
              rw p (record {
                connections =
                    ap (λ (c : Clients). c.connections) lists
                    ∙ ap (λ c. c ++ socket ∷ []) a.connections
                    ∙ sym (map-append (λ (m : Member). m.socket) ms (m ∷ []));
                names =
                    ap (λ (c : Clients). c.names) lists
                    ∙ ap (λ c. c ++ hostname ∷ []) a.names
                    ∙ sym (map-append (λ (m : Member). m.host) ms (m ∷ []));
              })
          | inr p ↦ rw p unchanged
        ]

    notified :
        (info : Option (Text × Text))
        → Ensures (Joined []) (authorised e socket info (handle_notify_all e) s)
    notified none = unchanged
    notified (some (username, hostname)) =
        elim (Bool-cases (is_user_valid e s.db_manager username).0) [
          | inl p ↦ rw p (
              unchanged-Same _ (
                handle_notify_all-clients e username hostname s
                  (record s { db_manager = (is_user_valid e s.db_manager username).1 }) refl))
          | inr p ↦ rw p unchanged
        ]

    handle_message-Joined :
        (id : Option ℕ) (message : Text)
        → Ensures
            (Joined (message_joins k socket s id message))
            (handle_message e k id socket now message s)
    unfolding handle_message
    handle_message-Joined none message = unchanged
    handle_message-Joined (some id) message = elim (Bool-cases (id == 1)) [
      | inl p ↦ rw p (greeted (get_user_info k message))
      | inr p ↦ elim (Bool-cases (id == 2)) [
        | inl q ↦ rw (p, q) (unchanged-Same _ (handle_over-clients e socket s))
        | inr q ↦ elim (Bool-cases (id == 3)) [
          | inl r ↦ rw (p, q, r) (notified (get_user_info k message))
          | inr r ↦ rw (p, q, r) unchanged
        ]
      ]
    ]

    note_alive-Joined : (i : ℤ) → Ensures (Joined []) (note_alive e i now s)
    note_alive-Joined (negsuc i) = unchanged
    note_alive-Joined (pos i) = elim (Bool-cases (ltb i (length s.client_last_seen))) [
      | inl p ↦ let u = unchanged in rw p (record { connections = u.connections; names = u.names })
      | inr p ↦ rw p tt
    ]

    handle_line-Joined :
        (message : Text)
        → Ensures (Joined (line_joins k socket s message)) (handle_line e k socket now message s)
    unfolding handle_line
    handle_line-Joined message = elim (Bool-cases (is_pingpong message)) [
      | inl p ↦ rw p (note_alive-Joined (index_of s.client_connections socket))
      | inr p ↦ rw p (handle_message-Joined (id_of k message) message)
    ]

    read_buffered-Joined :
        (o : Option (Text × Text)) (buffer : Text)
        → Ensures
            (λ (v : Text × Server e). Joined (buffer_joins k socket s o) v.1)
            (read_buffered e k socket now o buffer s)
    read_buffered-Joined none buffer = unchanged
    read_buffered-Joined (some (line, rest)) buffer =
        Ensures-then (Joined (line_joins k socket s line))
          (λ (v : Text × Server e). Joined (line_joins k socket s line) v.1)
          (handle_line e k socket now line s) _ (handle_line-Joined line) λ s' p. p

    pub read_client-Agrees :
        (buffer : Text)
        → Ensures
            (λ (v : Text × Server e). Agrees (ms ++ joins k socket s buffer) v.1)
            (read_client e k socket now buffer s)
    unfolding read_client
    read_client-Agrees buffer = go s.disabled
      where
        go :
            (paused : Bool)
            → Ensures
                (λ (v : Text × Server e).
                  Agrees
                    (ms ++ (if paused then [] else buffer_joins k socket s (read_line buffer)))
                    v.1)
                (if paused
                  then returns (buffer, s)
                  else read_buffered e k socket now (read_line buffer) buffer s)
        go true = unchanged
        go false = read_buffered-Joined (read_line buffer) buffer

  -- Who leaves, if registered, takes no other member of its name along.
  abbrev pub LeavesAlone : ℕ → List Member → Type 0
  LeavesAlone client ms =
      (h : Text)
      → host_at client ms ≡ returns h
      → All (λ m. (m.socket == client) ≡ text_eq m.host h) ms

  forget-Agrees :
      (client : ℕ) (ms : List Member) (s : Server e)
      → Agrees ms s
      → LeavesAlone client ms
      → Ensures (Agrees (gone client ms)) (forget e (index_of s.client_connections client) client s)
  forget-Agrees client ms s a alone =
      go (index_of s.client_connections client) refl (host_at client ms) refl
    where
      go :
          (i : ℤ)
          → index_of s.client_connections client ≡ i
          → (h : Run Text) → host_at client ms ≡ h
          → Ensures (Agrees (gone client ms)) (forget e i client s)
      go (negsuc i) p h q =
          let absent : host_at client ms ≡ out_of_range =
            sym (Agrees-at ms s client a) ∙ ap (at s.peer_names) p in
          subst (λ ms. Agrees ms s) (sym (gone-absent client ms absent)) a
      go (pos i) p out_of_range q =
          let read : at s.peer_names (pos i) ≡ out_of_range =
            sym (ap (at s.peer_names) p) ∙ Agrees-at ms s client a ∙ q in
          rw read tt
      go (pos i) p (returns h) q =
          let read : at s.peer_names (pos i) ≡ returns h =
            sym (ap (at s.peer_names) p) ∙ Agrees-at ms s client a ∙ q in
          rw read (
            Ensures-bind (Agrees (gone client ms)) (at s.client_last_seen (pos i)) _ λ seen.
              record {
                connections =
                    ap (λ c. remove_all nat_eq c client) a.connections
                    ∙ sym (sockets-gone client ms);
                names =
                    ap (λ n. remove_all text_eq n h) a.names
                    ∙ sym (hosts-gone client h ms (alone h q));
              })

  pub client_disconnected-Agrees :
      (client : ℕ) (ms : List Member) (s : Server e)
      → Agrees ms s
      → LeavesAlone client ms
      → Ensures (Agrees (gone client ms)) (client_disconnected e (some client) s)
  unfolding client_disconnected
  client_disconnected-Agrees client ms s a alone =
      Ensures-then (Agrees (gone client ms)) (Agrees (gone client ms))
        (forget e (index_of s.client_connections client) client s) _
        (forget-Agrees client ms s a alone)
        λ s' b. subst (IsListOf (gone client ms)) (sym (clients-stop_when_empty e s' client)) b

  disconnect_each-Agrees :
      (ms : List Member) (must : List ℕ) (s : Server e)
      → Agrees ms s
      → Agrees ms (disconnect_each e must s)
  disconnect_each-Agrees ms [] s a = a
  disconnect_each-Agrees ms (client ∷ must) s a = disconnect_each-Agrees ms must _ a

  accept_each-Agrees :
      (ms : List Member) (cs : List ℕ) (s : Server e) → Agrees ms s → Agrees ms (accept_each e cs s)
  accept_each-Agrees ms [] s a = a
  accept_each-Agrees ms (c ∷ cs) s a = accept_each-Agrees ms cs _ a

  pub check_clients_connection-Agrees :
      (ms : List Member) (now : ℕ) (s : Server e)
      → Agrees ms s
      → Ensures (Agrees ms) (check_clients_connection e now s)
  unfolding check_clients_connection
  check_clients_connection-Agrees ms now s a =
      Ensures-bind (Agrees ms) (silent e 0 now s.client_last_seen s.client_connections) _
        λ must. disconnect_each-Agrees ms must s a

  pub handle_new_connection-Agrees :
      (ms : List Member) (s : Server e) → Agrees ms s → Agrees ms (handle_new_connection e s)
  unfolding handle_new_connection
  handle_new_connection-Agrees ms s a =
      if_intro (Agrees ms) s.disabled s _ (λ _. a) (λ _. accept_each-Agrees ms s.pending s a)
