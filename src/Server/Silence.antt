-- ===== src/Server/Silence.antt =====
-- `checkClientsConnection` of server/easysyncserver.cpp: which clients are disconnected for silence.
use easysync.Prelude.{
  ℕ, zero, suc, ◌+◌, ◌≤◌, pos, ◌≡◌, refl, Bool, true, List, [], ◌∷◌, ◌++◌, map, ap, ap₂,
  length-append, ◌∙◌, sym, arith, length, filter, any, any-append, false, ◌||◌, ◌==◌, ==_refl, ltb,
  Bool-cases, inl, inr, append_assoc, append-nil,
}
use easysync.Database.Engine.{Engine}
use easysync.Server.Lists.{returns, at, at_index}
use easysync.Server.{
  Server, Action, disconnects, emit, check_clients_connection, silent, disconnect_each,
  seconds_between,
}
use easysync.Server.Changes.{clients}
use easysync.Server.Reading.{IsAligned}

-- The clients with their times, one list for two.
abbrev pub paired : List ℕ → List ℕ → List (ℕ × ℕ)
paired [] cs = []
paired (t ∷ ts) [] = []
paired (t ∷ ts) (c ∷ cs) = (t, c) ∷ paired ts cs

module _ (e : Engine) (current : ℕ) where
  -- More than 60 whole seconds lie between the two times of day.
  abbrev pub is_silent : ℕ × ℕ → Bool
  is_silent (seen, client) = ltb 60 (seconds_between e current seen)

  abbrev drop_all : List (ℕ × ℕ) → List Action
  drop_all ps = map (λ (p : ℕ × ℕ). disconnects p.1) (filter is_silent ps)

  at_index-append : (xs ys : List ℕ) (y : ℕ) → at_index (xs ++ y ∷ ys) (length xs) ≡ returns y
  at_index-append [] ys y = refl
  at_index-append (x ∷ xs) ys y = at_index-append xs ys y

  abbrev silent_clients : List (ℕ × ℕ) → List ℕ
  silent_clients ps = map (λ (p : ℕ × ℕ). p.1) (filter is_silent ps)

  silent-paired :
      (before ts cs : List ℕ)
      → length ts ≡ length cs
      → silent e (length before) current ts (before ++ cs) ≡ returns (silent_clients (paired ts cs))
  silent-paired before [] cs h = refl
  silent-paired before (t ∷ ts) [] h = absurd (omega arith)
  silent-paired before (t ∷ ts) (c ∷ cs) h =
      let count : length before + 1 ≡ length (before ++ c ∷ []) =
        omega (arith, length-append before (c ∷ [])) in
      let rest =
        ap₂ (λ n l. silent e n current ts l) count (sym (append_assoc before (c ∷ []) cs))
        ∙ silent-paired (before ++ c ∷ []) ts cs (omega arith) in
      elim (Bool-cases (is_silent (t, c))) [
        | inl p ↦ rw p (rw (at_index-append before cs c) (rw rest))
        | inr p ↦ rw p rest
      ]

  disconnect_each_lem :
      (cs : List ℕ) (s : Server e)
      → disconnect_each e cs s ≡ record s { actions = s.actions ++ map disconnects cs }
  disconnect_each_lem [] s = ap (λ l. record s { actions = l }) (sym (append-nil s.actions))
  disconnect_each_lem (c ∷ cs) s =
      disconnect_each_lem cs (emit e (disconnects c) s)
      ∙ ap (λ l. record s { actions = l })
          (append_assoc s.actions (disconnects c ∷ []) (map disconnects cs))

  -- With aligned lists checkClientsConnection returns, changes no list, and asks exactly those
  -- clients to disconnect, in their order, between whose last time and the current time of day
  -- lie more than 60 whole seconds.
  pub check_clients_connection_lem :
      (s : Server e)
      → IsAligned (clients e s)
      → check_clients_connection e current s
        ≡ returns (record s {
          actions =
              s.actions
              ++ map disconnects (silent_clients (paired s.client_last_seen s.client_connections));
        })
  unfolding check_clients_connection
  check_clients_connection_lem s a =
      rw (silent-paired [] s.client_last_seen s.client_connections a.times) (
        ap returns
          (disconnect_each_lem (silent_clients (paired s.client_last_seen s.client_connections)) s))

-- The action asks the socket to disconnect.
abbrev pub disconnects_from : ℕ → Action → Bool
disconnects_from client (disconnects c) = c == client
disconnects_from client _ = false

or_true : (b : Bool) → (b || true) ≡ true
or_true b = ground arith

module _ (e : Engine) (current client seen : ℕ) where
  silent_is_asked :
      (ts cs : List ℕ) (i : ℕ)
      → at_index ts i ≡ returns seen
      → at_index cs i ≡ returns client
      → is_silent e current (seen, client) ≡ true
      → any (disconnects_from client) (map disconnects (silent_clients e current (paired ts cs)))
        ≡ true
  silent_is_asked [] cs i a b p = cc
  silent_is_asked (t ∷ ts) [] i a b p = cc
  silent_is_asked (t ∷ ts) (c ∷ cs) zero a b p =
      let q : t ≡ seen = cc in let r : c ≡ client = cc in rw (q, r, p) (rw (==_refl client))
  silent_is_asked (t ∷ ts) (c ∷ cs) (suc i) a b p =
      let rest = silent_is_asked ts cs i a b p in
      elim (Bool-cases (is_silent e current (t, c))) [
        | inl q ↦ rw (q, rest) (or_true (c == client))
        | inr q ↦ rw q rest
      ]

  -- Times of day wrap at midnight: with aligned lists, a client whose last time of day is later
  -- than the current one by 61 seconds or more, as it is for one last seen before midnight, is
  -- asked to disconnect, however short its silence is.
  pub check_clients_connection-midnight :
      (s : Server e) (i : ℕ)
      → IsAligned (clients e s)
      → at s.client_last_seen (pos i) ≡ returns seen
      → at s.client_connections (pos i) ≡ returns client
      → current + 61000 ≤ seen
      → (s' : Server e) × (check_clients_connection e current s ≡ returns s')
        × (any (disconnects_from client) s'.actions ≡ true)
  check_clients_connection-midnight s i a t c h = (
    _,
    check_clients_connection_lem e current s a,
    any-append (disconnects_from client) s.actions _
        ∙ ap (λ b. any (disconnects_from client) s.actions || b)
            (silent_is_asked s.client_last_seen s.client_connections i t c (ground arith))
        ∙ or_true (any (disconnects_from client) s.actions),
  )
