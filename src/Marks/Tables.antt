-- ===== src/Marks/Tables.antt =====
-- The statements of server/dbmanager.cpp that change the table of hosts, seen at the rows of one host.
use easysync.Prelude.{
  ℕ, ℤ, ◌≡◌, refl, Bool, true, false, not, ◌&&◌, ◌||◌, Option, none, some, List, [], ◌∷◌, ◌++◌,
  ◌==◌, any, all, any-append, any-map, fun_ext, append-nil, map, arith, if◌then◌else◌, ap, ap₂, ◌∙◌,
  Bool-cases, inl, inr,
}
use easysync.Text.{Text, text_eq, text_eq_iff}
use easysync.Database.Schema.{Tables, Host, host_rows, user_rows, user_id_of}
use easysync.Database.Statements.{is_host, owned_by, new_host}
use easysync.DbManager.Quote.{sql_quote, sql_quote-eq_self, has_quote}
use easysync.DbManager.Register.{is_listed, hosts_with, with_socket}
use easysync.Marks.{is_of, due}

-- A change of the rows that leaves their names and their owners.
abbrev pub Keeps : (Host → Host) → Type 0
Keeps f = (r : Host) → ((f r).hostname ≡ r.hostname) × ((f r).user_id ≡ r.user_id)

all-append :
    {A : Type 0} (p : A → Bool) (xs ys : List A) → all p (xs ++ ys) ≡ (all p xs && all p ys)
all-append p [] ys = refl
all-append p (x ∷ xs) ys = ground (arith, all-append p xs ys)

all-map :
    {A B : Type 0} (p : B → Bool) (f : A → B) (xs : List A)
    → all p (map f xs) ≡ all (λ x. p (f x)) xs
all-map p f [] = refl
all-map p f (x ∷ xs) = ap (λ b. p (f x) && b) (all-map p f xs)

updated-Keeps : (w : Host → Bool) (f : Host → Host) → Keeps f → Keeps (λ r. if w r then f r else r)
updated-Keeps w f k r = elim (Bool-cases (w r)) [ inl p ↦ rw p (k r) | inr p ↦ rw p (refl, refl) ]

module _ (owner : ℕ) (host : Text) where
  is_of-map :
      (f : Host → Host) (hs : List Host)
      → Keeps f
      → is_of owner host (map f hs) ≡ is_of owner host hs
  is_of-map f hs k =
      ap₂ ◌&&◌
        (any-map (is_host host) f hs
          ∙ ap (λ p. any p hs) (fun_ext (λ r. ap (λ n. text_eq n host) (k r).0)))
        (all-map (λ r. not (is_host host r) || r.user_id == owner) f hs
          ∙ ap (λ p. all p hs)
              (fun_ext (λ r. ap₂ (λ n i. not (text_eq n host) || i == owner) (k r).0 (k r).1)))

  pub is_of-update :
      (w : Host → Bool) (f : Host → Host) (hs : List Host)
      → Keeps f
      → is_of owner host (map (λ r. if w r then f r else r) hs) ≡ is_of owner host hs
  is_of-update w f hs k = is_of-map _ hs (updated-Keeps w f k)

  pub due-clear :
      (h : Text) (hs : List Host)
      → due host (map (λ r. if is_host h r then record r { must_sync = 0 } else r) hs)
        ≡ (not (text_eq h host) && due host hs)
  due-clear h [] = ground arith
  due-clear h (r ∷ hs) = ground (
    arith,
    due-clear h hs,
    text_eq_iff r.hostname h,
    text_eq_iff r.hostname host,
    text_eq_iff h host,
  )

  marked_row :
      (o : Option ℕ) (h : Text) (r : Host)
      → (not (is_host host r) || r.user_id == owner) ≡ true
      → let r' =
          if not (is_host h r) && owned_by o r.user_id then record r { must_sync = 1 } else r in
        (is_host host r' && r'.must_sync == 1) ≡ (
          (is_host host r && (not (text_eq h host) && owned_by o owner))
          || (is_host host r && r.must_sync == 1))
  marked_row o h r a = elim (Bool-cases (is_host host r)) [
    | inl p ↦
        let same : r.user_id ≡ owner = ground (arith, a, p) in
        ground (
          arith,
          p,
          ap (owned_by o) same,
          text_eq_iff r.hostname h,
          text_eq_iff r.hostname host,
          text_eq_iff h host,
        )
    | inr p ↦ ground (arith, p)
  ]

  marked_rows :
      (o : Option ℕ) (h : Text) (hs : List Host)
      → all (λ r. not (is_host host r) || r.user_id == owner) hs ≡ true
      → due host (
          map
            (λ r.
              if not (is_host h r) && owned_by o r.user_id then record r { must_sync = 1 } else r)
            hs)
        ≡ ((any (is_host host) hs && (not (text_eq h host) && owned_by o owner)) || due host hs)
  marked_rows o h [] a = ground arith
  marked_rows o h (r ∷ hs) a =
      let first = marked_row o h r (ground (arith, a)) in
      let later = marked_rows o h hs (ground (arith, a)) in
      ap₂ (λ x y. x || y) first later ∙ ground arith

  -- The rows of the host that get the mark are all or none.
  pub due-mark :
      (o : Option ℕ) (h : Text) (hs : List Host)
      → is_of owner host hs ≡ true
      → due host (
          map
            (λ r.
              if not (is_host h r) && owned_by o r.user_id then record r { must_sync = 1 } else r)
            hs)
        ≡ ((not (text_eq h host) && owned_by o owner) || due host hs)
  due-mark o h hs is = marked_rows o h hs (ground (arith, is)) ∙ ground (arith, is)

  pub due-socket : (i : ℤ) (h : Text) (hs : List Host) → due host (with_socket i h hs) ≡ due host hs
  due-socket i h [] = refl
  due-socket i h (r ∷ hs) = ground (arith, due-socket i h hs)

  is_of-new :
      (o : Option ℕ) (h : Text) (hs : List Host)
      → text_eq h host ≡ false
      → (is_of owner host (hs ++ new_host o h hs) ≡ is_of owner host hs)
        × (due host (hs ++ new_host o h hs) ≡ due host hs)
  is_of-new none h hs n = rw (append-nil hs) (refl, refl)
  is_of-new (some k) h hs n =
      let new = new_host (some k) h hs in
      let listed : any (is_host host) (hs ++ new) ≡ any (is_host host) hs =
        any-append (is_host host) hs new ∙ ground (arith, n) in
      let owned : all (λ r. not (is_host host r) || r.user_id == owner) (hs ++ new)
          ≡ all (λ r. not (is_host host r) || r.user_id == owner) hs =
        all-append (λ r. not (is_host host r) || r.user_id == owner) hs new ∙ ground (arith, n) in
      (
        ap₂ ◌&&◌ listed owned,
        any-append (λ r. is_host host r && r.must_sync == 1) hs new ∙ ground (arith, n),
      )

  -- A host that is not listed is another one.
  unlisted :
      (h : Text) (t : Tables)
      → has_quote host ≡ false
      → is_of owner host (host_rows t) ≡ true
      → is_listed (sql_quote h) t ≡ false
      → text_eq h host ≡ false
  unlisted h t plain is p = elim (Bool-cases (text_eq h host)) [
    | inl q ↦
        let listed : is_listed (sql_quote h) t ≡ is_listed host t =
          ap (λ n. is_listed (sql_quote n) t) ((text_eq_iff h host).0 q)
          ∙ ap (λ n. is_listed n t) (sql_quote-eq_self host plain) in
        ground (arith, listed, is, p)
    | inr q ↦ q
  ]

  -- addHostname, whatever user and host it is called for.
  pub joined_lem :
      (u h : Text) (i : ℤ) (t : Tables)
      → has_quote host ≡ false
      → is_of owner host (host_rows t) ≡ true
      → (is_of owner host (with_socket i h (hosts_with u h t)) ≡ is_of owner host (host_rows t))
        × (due host (with_socket i h (hosts_with u h t)) ≡ due host (host_rows t))
  joined_lem u h i t plain is = elim (Bool-cases (is_listed (sql_quote h) t)) [
    | inl p ↦ rw p (
      is_of-update (is_host h) (λ r. record r { socket_id = i }) (host_rows t) (λ r. (refl, refl)),
      due-socket i h (host_rows t),
    )
    | inr p ↦
        let new = new_host (user_id_of u (user_rows t)) h (host_rows t) in
        let (a, b) =
          is_of-new (user_id_of u (user_rows t)) h (host_rows t) (unlisted h t plain is p) in
        rw p (
          is_of-update (is_host h) (λ r. record r { socket_id = i }) (host_rows t ++ new)
                (λ r. (refl, refl))
              ∙ a,
          due-socket i h (host_rows t ++ new) ∙ b,
        )
  ]
