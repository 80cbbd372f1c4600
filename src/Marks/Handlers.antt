-- ===== src/Marks/Handlers.antt =====
-- What the messages of a socket do to the mark of one host (server/easysyncserver.cpp).
use easysync.Prelude.{
  ℕ, ℤ, pos, negsuc, ◌≡◌, Bool, true, false, not, ◌&&◌, Option, none, some, List, [], ◌∷◌, ◌==◌, ap,
  ◌∙◌, sym, subst, arith, if_intro, Bool-cases, inl, inr, All, any,
}
use easysync.Text.{Text, text_eq_iff}
use easysync.Text.Format.{NoPercent}
use easysync.Database.Schema.{User, has_name}
use easysync.Database.Engine.{Engine, IsReliable}
use easysync.DbManager.{
  is_user_valid, clients_to_sync, is_sync_needed, sync_is_done, set_notify_all_except, add_hostname,
}
use easysync.DbManager.Effects.{clients_to_sync-Stays, is_sync_needed-Stays}
use easysync.DbManager.Execution.{tables_of}
use easysync.DbManager.Quote.{has_quote}
use easysync.DbManager.Users.{is_known, tables-is_user_valid, is_user_valid_lem}
use easysync.Server.Changes.{Ensures, Ensures-bind}
use easysync.Server.Lists.{Run, returns, out_of_range, ◌>>=◌, at, append, index_of}
use easysync.Server.{
  Server, register, notify_each, notify_clients, handle_over, handle_notify_all, authorised,
  notify_client,
}
use easysync.Marks.{notifies, mark, marks}
use easysync.Marks.Methods.{
  Shows, Stays-Shows, sync_is_done-Shows, set_notify_all_except-Shows, add_hostname-Shows,
}
use easysync.Marks.Events.{over_events, notify_events, is_valid}

pub NoPercent-known :
    (u : Text) (us : List User)
    → All (λ r. NoPercent r.username) us
    → any (has_name u) us ≡ true
    → NoPercent u
NoPercent-known u [] a p = cc
NoPercent-known u (r ∷ us) a p = elim (Bool-cases (has_name u r)) [
  | inl q ↦ subst NoPercent ((text_eq_iff r.username u).0 q) a.0
  | inr q ↦ NoPercent-known u us a.1 (ground (arith, p, q))
]

-- The server's database shows this mark.
abbrev pub Marked : (e : Engine) → List User → ℕ → Text → Bool → Server e → Type 0
Marked e users owner host b s = Shows e users owner host b s.db_manager

module _ (e : Engine) (rel : IsReliable e) (users : List User) (owner : ℕ) (host : Text)
    (plain : has_quote host ≡ false) (percent : All (λ r. NoPercent r.username) users) where
  notify_each-Marked :
      (b : Bool) (ids : List ℤ) (s : Server e)
      → Marked e users owner host b s
      → Ensures (Marked e users owner host b) (notify_each e ids s)
  notify_each-Marked b [] s m = m
  notify_each-Marked b (negsuc i ∷ ids) s m = elim (Bool-cases (i == 0)) [
    | inl p ↦ rw p (notify_each-Marked b ids s m)
    | inr p ↦ rw p tt
  ]
  notify_each-Marked b (pos i ∷ ids) s m =
      Ensures-bind (Marked e users owner host b) (at s.client_connections (pos i)) _ λ client.
        Ensures-bind (Marked e users owner host b) (at s.peer_names (pos i)) _
          λ name. notify_each-Marked b ids (notify_client e client name s) m

  handle_notify_all-Marked :
      (b : Bool) (u h : Text) (s : Server e)
      → has_quote u ≡ false
      → Marked e users owner host b s
      → Ensures
          (Marked e users owner host (mark users owner host (notifies u h) b))
          (handle_notify_all e u h s)
  unfolding handle_notify_all notify_clients
  handle_notify_all-Marked b u h s q m =
      let m' = set_notify_all_except e s.db_manager u h in
      let b' = mark users owner host (notifies u h) b in
      let (ids, m'') = clients_to_sync e m' u [] in
      notify_each-Marked b' ids (record s { db_manager = m'' })
        (Stays-Shows e users owner host b' m' m'' (clients_to_sync-Stays e m' u)
          (set_notify_all_except-Shows e rel users owner host plain b s.db_manager u h q m))

  pub handle_over-Marked :
      (b : Bool) (socket : ℕ) (s : Server e)
      → Marked e users owner host b s
      → Ensures
          (Marked e users owner host (
            marks users owner host
              (over_events (at s.peer_names (index_of s.client_connections socket)))
              b))
          (handle_over e socket s)
  unfolding handle_over
  handle_over-Marked b socket s m = go (at s.peer_names (index_of s.client_connections socket))
    where
      go :
          (x : Run Text)
          → Ensures
              (Marked e users owner host (marks users owner host (over_events x) b))
              (x >>= λ h. returns (record s { db_manager = sync_is_done e s.db_manager h }))
      go (returns h) = sync_is_done-Shows e rel users owner host plain b s.db_manager h m
      go out_of_range = tt

  register-Marked :
      (b : Bool) (socket : ℕ) (u h : Text) (now : ℕ) (s : Server e)
      → is_known u (tables_of e s.db_manager) ≡ true
      → has_quote u ≡ false
      → Marked e users owner host b s
      → Marked e users owner host b (register e socket u h now s)
  unfolding register
  register-Marked b socket u h now s known q m =
      let i = index_of (append s.client_connections socket) socket in
      let v = add_hostname e s.db_manager u h i in
      let added =
        add_hostname-Shows e rel users owner host plain b s.db_manager u h i known q
          (NoPercent-known u users percent (sym (ap (any (has_name u)) m.known) ∙ known)) m in
      let asked = Stays-Shows e users owner host b v.1 _ (is_sync_needed-Stays e v.1 h) added in
      if_intro (Marked e users owner host b) v.0 _ _
        (λ _.
          if_intro (Marked e users owner host b) (is_sync_needed e v.1 h).0 _ _ (λ _. asked)
            (λ _. asked))
        (λ _. added)

  -- The user is valid exactly if the table knows the name and it holds no quote.
  valid_lem :
      (b : Bool) (u : Text) (s : Server e)
      → Marked e users owner host b s
      → (is_user_valid e s.db_manager u).0 ≡ is_valid users u
  valid_lem b u s m =
      is_user_valid_lem e rel s.db_manager u (m.tabs.0, m.tabs.1)
      ∙ ap (λ us. any (has_name u) us && not (has_quote u)) m.known

  checked-Marked :
      (b : Bool) (u : Text) (s : Server e)
      → Marked e users owner host b s
      → Marked e users owner host b (record s { db_manager = (is_user_valid e s.db_manager u).1 })
  checked-Marked b u s m =
      Stays-Shows e users owner host b s.db_manager _ (tables-is_user_valid e s.db_manager u) m

  pub register_info-Marked :
      (b : Bool) (socket now : ℕ) (info : Option (Text × Text)) (s : Server e)
      → Marked e users owner host b s
      → Ensures
          (Marked e users owner host b)
          (authorised e socket info (λ u h s'. returns (register e socket u h now s')) s)
  register_info-Marked b socket now none s m = m
  register_info-Marked b socket now (some (u, h)) s m =
      elim (Bool-cases (is_user_valid e s.db_manager u).0) [
        | inl p ↦
            let s' : Server e = record s { db_manager = (is_user_valid e s.db_manager u).1 } in
            let m' = checked-Marked b u s m in
            let v : is_valid users u ≡ true = sym (valid_lem b u s m) ∙ p in
            rw p (
              register-Marked b socket u h now s'
                (ap (any (has_name u)) m'.known ∙ ground (arith, v)) (ground (arith, v)) m')
        | inr p ↦ rw p (checked-Marked b u s m)
      ]

  pub notify_info-Marked :
      (b : Bool) (socket : ℕ) (info : Option (Text × Text)) (s : Server e)
      → Marked e users owner host b s
      → Ensures
          (Marked e users owner host (marks users owner host (notify_events users info) b))
          (authorised e socket info (handle_notify_all e) s)
  notify_info-Marked b socket none s m = m
  notify_info-Marked b socket (some (u, h)) s m = elim (Bool-cases (is_valid users u)) [
    | inl v ↦
        let s' : Server e = record s { db_manager = (is_user_valid e s.db_manager u).1 } in
        rw (valid_lem b u s m, v)
          (handle_notify_all-Marked b u h s' (ground (arith, v)) (checked-Marked b u s m))
    | inr v ↦ rw (valid_lem b u s m, v) (checked-Marked b u s m)
  ]
