-- ===== src/Places/Handlers.antt =====
-- What a line of a socket does to the socket numbers (server/easysyncserver.cpp).
use easysync.Prelude.{
  ℕ, suc, ◌≤◌, ℤ, pos, negsuc, ◌≡◌, refl, true, false, Option, none, some, List, [], ◌∷◌, ◌==◌, ap,
  ◌∙◌, sym, arith, if_intro, Bool-cases, inl, inr, All, any, length, length-append,
}
use easysync.Text.{Text}
use easysync.Text.Format.{NoPercent}
use easysync.Text.Scan.{Unicode}
use easysync.Database.Schema.{User, has_name}
use easysync.Database.Engine.{Engine, IsReliable}
use easysync.DbManager.{
  is_user_valid, clients_to_sync, is_sync_needed, set_notify_all_except, add_hostname,
}
use easysync.DbManager.Effects.{clients_to_sync-Stays, is_sync_needed-Stays}
use easysync.DbManager.Execution.{tables_of}
use easysync.DbManager.Quote.{has_quote}
use easysync.DbManager.Users.{is_known, tables-is_user_valid, is_user_valid_lem}
use easysync.Server.Changes.{Ensures, Ensures-bind, Ensures-if, Ensures-then}
use easysync.Server.Lists.{Run, at, append, replace, index_of, next_index}
use easysync.Server.Messages.{read_line, is_pingpong, get_user_info, id_of}
use easysync.Server.{
  Server, register, notify_each, handle_over, handle_notify_all, handle_message, handle_line,
  read_client, read_buffered, authorised, note_alive, notify_client, notify_clients,
}
use easysync.Server.Totality.{InRange}
use easysync.Marks.Handlers.{NoPercent-known}
use easysync.Places.{InPlace}
use easysync.Places.Methods.{
  IsPlaced-mono, Stays-IsPlaced, sync_is_done-IsPlaced, set_notify_all_except-IsPlaced,
  add_hostname-IsPlaced,
}

next_index-InRange : (n : ℕ) (z : ℤ) → InRange n z → InRange (suc n) (next_index z)
next_index-InRange n (pos i) h = omega (arith, h)
next_index-InRange n (negsuc i) h = h

-- What indexOf finds is a place in the list, or -1.
index_of-InRange : (xs : List ℕ) (x : ℕ) → InRange (length xs) (index_of xs x)
index_of-InRange [] x = refl
index_of-InRange (y ∷ ys) x = elim (Bool-cases (y == x)) [
  | inl p ↦ rw p (omega arith)
  | inr p ↦ rw p (next_index-InRange (length ys) (index_of ys x) (index_of-InRange ys x))
]

module _ (e : Engine) (rel : IsReliable e) (users : List User)
    (percent : All (λ r. NoPercent r.username) users) where
  abbrev Placed : Server e → Type 0
  Placed = InPlace e users

  notify_each-InPlace :
      (ids : List ℤ) (s : Server e) → Placed s → Ensures Placed (notify_each e ids s)
  notify_each-InPlace [] s m = m
  notify_each-InPlace (negsuc i ∷ ids) s m =
      Ensures-if Placed (i == 0) _ _ (notify_each-InPlace ids s m) tt
  notify_each-InPlace (pos i ∷ ids) s m =
      Ensures-bind Placed (at s.client_connections (pos i)) _ λ client.
        Ensures-bind Placed (at s.peer_names (pos i)) _
          λ name. notify_each-InPlace ids (notify_client e client name s) m

  handle_notify_all-InPlace :
      (u h : Text) (s : Server e) → Placed s → Ensures Placed (handle_notify_all e u h s)
  unfolding handle_notify_all notify_clients
  handle_notify_all-InPlace u h s m =
      let n = length s.client_connections in
      let m' = set_notify_all_except e s.db_manager u h in
      let (ids, m'') = clients_to_sync e m' u [] in
      notify_each-InPlace ids (record s { db_manager = m'' })
        (Stays-IsPlaced e users n m' m'' (clients_to_sync-Stays e m' u)
          (set_notify_all_except-IsPlaced e rel users n s.db_manager m u h))

  handle_over-InPlace :
      (socket : ℕ) (s : Server e) → Placed s → Ensures Placed (handle_over e socket s)
  unfolding handle_over
  handle_over-InPlace socket s m =
      Ensures-bind Placed (at s.peer_names (index_of s.client_connections socket)) _
        λ name. sync_is_done-IsPlaced e rel users (length s.client_connections) s.db_manager m name

  register-InPlace :
      (socket : ℕ) (u h : Text) (now : ℕ) (s : Server e)
      → is_known u (tables_of e s.db_manager) ≡ true
      → has_quote u ≡ false
      → Placed s
      → Placed (register e socket u h now s)
  unfolding register
  register-InPlace socket u h now s known q m =
      let cs = append s.client_connections socket in
      let n = length cs in
      let more : length s.client_connections ≤ n =
        omega (arith, length-append s.client_connections (socket ∷ [])) in
      let i = index_of cs socket in
      let v = add_hostname e s.db_manager u h i in
      let added =
        add_hostname-IsPlaced e rel users n s.db_manager
          (IsPlaced-mono e users (length s.client_connections) n s.db_manager more m) u h i known q
          (NoPercent-known u users percent (sym (ap (any (has_name u)) m.known) ∙ known))
          (index_of-InRange cs socket) in
      let asked = Stays-IsPlaced e users n v.1 _ (is_sync_needed-Stays e v.1 h) added in
      if_intro Placed v.0 _ _
        (λ _. if_intro Placed (is_sync_needed e v.1 h).0 _ _ (λ _. asked) (λ _. asked)) (λ _. added)

  -- What both messages do first.
  authorised-InPlace :
      (socket : ℕ) (info : Option (Text × Text)) (next : Text → Text → Server e → Run (Server e))
      (s : Server e)
      → ((u h : Text) (s' : Server e)
          → is_known u (tables_of e s'.db_manager) ≡ true
          → has_quote u ≡ false
          → Placed s'
          → Ensures Placed (next u h s'))
      → Placed s
      → Ensures Placed (authorised e socket info next s)
  authorised-InPlace socket none next s f m = m
  authorised-InPlace socket (some (u, h)) next s f m =
      let v = is_user_valid e s.db_manager u in
      let s' : Server e = record s { db_manager = v.1 } in
      let same = tables-is_user_valid e s.db_manager u in
      let m' : Placed s' = Stays-IsPlaced e users _ s.db_manager v.1 same m in
      let valid = is_user_valid_lem e rel s.db_manager u (m.tabs.0, m.tabs.1) in
      elim (Bool-cases v.0) [
        | inl p ↦
            rw p
              (f u h s' (ap (is_known u) same.0 ∙ ground (arith, valid)) (ground (arith, valid)) m')
        | inr p ↦ rw p m'
      ]

  note_alive-InPlace :
      (i : ℤ) (now : ℕ) (s : Server e) → Placed s → Ensures Placed (note_alive e i now s)
  note_alive-InPlace (negsuc i) now s m = m
  note_alive-InPlace (pos i) now s m =
      Ensures-bind Placed (replace s.client_last_seen (pos i) now) _ λ seen. m

  module _ (k : Unicode) (socket now : ℕ) (s : Server e) (m : Placed s) where
    handle_message-InPlace :
        (id : Option ℕ) (message : Text)
        → Ensures Placed (handle_message e k id socket now message s)
    unfolding handle_message
    handle_message-InPlace none message = m
    handle_message-InPlace (some id) message =
        let info = get_user_info k message in
        Ensures-if Placed (id == 1) _ _
          (authorised-InPlace socket info _ s
            (λ u h s' known q m'. register-InPlace socket u h now s' known q m') m)
          (Ensures-if Placed (id == 2) _ _ (handle_over-InPlace socket s m) (
            Ensures-if Placed (id == 3) _ _
              (authorised-InPlace socket info _ s
                (λ u h s' known q m'. handle_notify_all-InPlace u h s' m') m)
              m))

    handle_line-InPlace : (message : Text) → Ensures Placed (handle_line e k socket now message s)
    unfolding handle_line
    handle_line-InPlace message =
        Ensures-if Placed (is_pingpong message) _ _
          (note_alive-InPlace (index_of s.client_connections socket) now s m)
          (handle_message-InPlace (id_of k message) message)

    read_buffered-InPlace :
        (o : Option (Text × Text)) (buffer : Text)
        → Ensures (λ (v : Text × Server e). Placed v.1) (read_buffered e k socket now o buffer s)
    read_buffered-InPlace none buffer = m
    read_buffered-InPlace (some (line, rest)) buffer =
        Ensures-then Placed (λ (v : Text × Server e). Placed v.1)
          (handle_line e k socket now line s) _ (handle_line-InPlace line) λ s' m'. m'

    pub read_client-InPlace :
        (buffer : Text)
        → Ensures (λ (v : Text × Server e). Placed v.1) (read_client e k socket now buffer s)
    unfolding read_client
    read_client-InPlace buffer =
        Ensures-if (λ (v : Text × Server e). Placed v.1) s.disabled _ _ m
          (read_buffered-InPlace (read_line buffer) buffer)
