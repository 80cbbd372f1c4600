-- ===== src/Exchange/Requests.antt =====
-- notifyClient of server/easysyncserver.cpp, for all the sockets of a notification: what it writes to one
-- of them.
use easysync.Prelude.{
  ℕ, ℤ, pos, negsuc, ◌≡◌, refl, Bool, true, false, ◌||◌, List, [], ◌∷◌, ◌++◌, ◌==◌, ==_iff, ap, ◌∙◌,
  sym, arith, if◌then◌else◌, Bool-cases, inl, inr, append-nil, append_assoc,
}
use easysync.Text.{Text}
use easysync.Database.Engine.{Engine}
use easysync.DbManager.Selects.{contains}
use easysync.Server
use easysync.Server.{Server, notify_client, notify_each}
use easysync.Server.Lists.{Run, returns, out_of_range, ◌>>=◌, at_index}
use easysync.Server.Messages.{sync_request}
use easysync.Server.Totality.{Returns}
use easysync.Text.Wire.{Wire}
use easysync.Exchange.{written, written-append}

module _ (w : Wire) where
  written-one :
      (b other : ℕ) (text : Text) (xs : List Server.Action)
      → written w b (xs ++ Server.writes other text ∷ [])
        ≡ written w b xs ++ (if other == b then w.to_client text else [])
  written-one b other text xs =
      written-append w b xs (Server.writes other text ∷ [])
      ∙ ap (λ t. written w b xs ++ t)
          (elim (Bool-cases (other == b)) [
            | inl p ↦ rw p (append-nil (w.to_client text))
            | inr p ↦ rw p refl
          ])

  wrote_through :
      (b other : ℕ) (v : Bool) (text : Text) (xs after : List Server.Action) (rest : Text)
      → (other == b) ≡ v
      → written w b after ≡ written w b (xs ++ Server.writes other text ∷ []) ++ rest
      → written w b after ≡ (written w b xs ++ (if v then w.to_client text else [])) ++ rest
  wrote_through b other v text xs after rest c p =
      p
      ∙ ap (λ t. t ++ rest)
          (written-one b other text xs
            ∙ ap (λ v. written w b xs ++ (if v then w.to_client text else [])) c)

module _ (w : Wire) (e : Engine) (b i : ℕ) (host : Text) where
  -- The run returns, and has written `rest` to the socket: if `asked`, a request for the host first.
  pub record Notified (s : Server e) (asked : Bool) (r : Run (Server e)) : Type 0 where
    pub after : Server e
    pub returned : r ≡ returns after
    pub rest : Text
    pub wrote : written w b after.actions ≡ written w b s.actions ++ rest
    pub first : asked ≡ true → (more : Text) × (rest ≡ w.to_client (sync_request host) ++ more)

  -- A client at that socket is the host.
  abbrev pub Owns : Server e → Type 0
  Owns s =
      (j : ℕ) → at_index s.client_connections j ≡ returns b → at_index s.peer_names j ≡ returns host

  same_name :
      (s : Server e) (own : Owns s) (j client : ℕ) (name : Text)
      → at_index s.client_connections j ≡ returns client
      → at_index s.peer_names j ≡ returns name
      → (client == b) ≡ true
      → name ≡ host
  same_name s own j client name p q c =
      let mine = own j (p ∙ ap returns ((==_iff client b).0 c)) in cc

  -- At another place stands another client.
  elsewhere :
      (s : Server e) (j client : ℕ) (due : Bool)
      → at_index s.client_connections i ≡ returns b
      → at_index s.client_connections j ≡ returns client
      → (client == b) ≡ false
      → (j == i || due) ≡ true
      → due ≡ true
  elsewhere s j client due here p c a = elim (Bool-cases (j == i)) [
    | inl d ↦
        let same : returns client ≡ returns b =
          sym p ∙ ap (at_index s.client_connections) ((==_iff j i).0 d) ∙ here in
        let client_is : client ≡ b = cc in ground arith
    | inr d ↦ ground arith
  ]

  pub notify_each-Notified :
      (ids : List ℤ) (s : Server e)
      → Owns s
      → at_index s.client_connections i ≡ returns b
      → Returns (notify_each e ids s)
      → Notified s (contains (pos i) ids) (notify_each e ids s)
  notify_each-Notified [] s own here h = record {
    after = s;
    returned = refl;
    rest = [];
    wrote = sym (append-nil (written w b s.actions));
    first = λ p. cc;
  }
  notify_each-Notified (negsuc n ∷ ids) s own here h = elim (Bool-cases (n == 0)) [
    | inl p ↦ rw p (notify_each-Notified ids s own here (rw p at h))
    | inr p ↦ absurd (rw p at h)
  ]
  notify_each-Notified (pos j ∷ ids) s own here h =
      go (λ client name. notify_each-Notified ids (notify_client e client name s) own here)
        (at_index s.client_connections j) (at_index s.peer_names j) refl refl h
    where
      go :
          ((client : ℕ) (name : Text)
            → Returns (notify_each e ids (notify_client e client name s))
            → Notified
                (notify_client e client name s)
                (contains (pos i) ids)
                (notify_each e ids (notify_client e client name s)))
          → (x : Run ℕ) (y : Run Text) → at_index s.client_connections j ≡ x
          → at_index s.peer_names j ≡ y
          → Returns
              (x >>= λ client. y >>= λ name. notify_each e ids (notify_client e client name s))
          → Notified s
              (contains (pos i) (pos j ∷ ids))
              (x >>= λ client. y >>= λ name. notify_each e ids (notify_client e client name s))
      go again out_of_range y p q h = absurd h
      go again (returns client) out_of_range p q h = absurd h
      go again (returns client) (returns name) p q h =
          let later = again client name h in
          elim (Bool-cases (client == b)) [
            | inl c ↦ record {
              after = later.after;
              returned = later.returned;
              rest = w.to_client (sync_request host) ++ later.rest;
              wrote =
                  wrote_through w b client true (sync_request name) s.actions later.after.actions
                    later.rest c later.wrote
                  ∙ ap (λ n. (written w b s.actions ++ w.to_client (sync_request n)) ++ later.rest)
                      (same_name s own j client name p q c)
                  ∙ append_assoc (written w b s.actions) (w.to_client (sync_request host))
                      later.rest;
              first = λ _. (later.rest, refl);
            }
            | inr c ↦ record {
              after = later.after;
              returned = later.returned;
              rest = later.rest;
              wrote =
                  wrote_through w b client false (sync_request name) s.actions later.after.actions
                    later.rest c later.wrote
                  ∙ ap (λ t. t ++ later.rest) (append-nil (written w b s.actions));
              first = λ a. later.first (elsewhere s j client (contains (pos i) ids) here p c a);
            }
          ]
