-- ===== src/DbManager/Selects.antt =====
-- What the rows of the `SELECT`s of clientsToSync and isSyncNeeded (server/dbmanager.cpp) come to.
use easysync.Prelude.{
  ℕ, ℤ, int_eq, ==_refl, ◌≡◌, refl, Bool, true, false, ◌&&◌, none, some, List, [], ◌∷◌, ◌++◌, map,
  filter, any, arith, ap, ◌∙◌, Bool-cases, inl, inr, ◌⊎◌, get_or, ◌==◌, any-append, map-append,
}
use easysync.Text.{Text}
use easysync.Database.Literals.{literal}
use easysync.Database.Schema.{
  Tables, User, Host, Row, client_row, user_rows, host_rows, has_name, user_id_of,
}
use easysync.Database.Statements.{
  answer, select_clients, select_must_sync, is_host, owned_by, is_due, cross,
}
use easysync.DbManager.{socket_of, has_row}
use easysync.DbManager.Quote.{sql_quote, sql_quote-NoQuote}
use easysync.DbManager.Queries.{
  notify_query, clients_query, needed_query, literals-notify_query, literals-clients_query,
  literals-needed_query,
}
use easysync.DbManager.Users.{is_known}

pub notify_literal : (u : Text) → literal (notify_query (sql_quote u)) 0 ≡ sql_quote u
notify_literal u =
    ap (λ ts. get_or ts 0 []) (literals-notify_query (sql_quote u) (sql_quote-NoQuote u))

pub clients_literal : (u : Text) → literal (clients_query (sql_quote u)) 2 ≡ sql_quote u
clients_literal u =
    ap (λ ts. get_or ts 2 []) (literals-clients_query (sql_quote u) (sql_quote-NoQuote u))

pub needed_literal : (h : Text) → literal (needed_query (sql_quote h)) 0 ≡ sql_quote h
needed_literal h =
    ap (λ ts. get_or ts 0 []) (literals-needed_query (sql_quote h) (sql_quote-NoQuote h))

-- `socket` is among the sockets.
abbrev pub contains : ℤ → List ℤ → Bool
contains socket = any (λ i. int_eq i socket)

-- A host with a connection at `socket` that has to synchronise, whoever owns it.
abbrev pub due_at : ℤ → Host → Bool
due_at socket r = is_due r && int_eq r.socket_id socket

client_of : Host → User → Row
client_of h r = client_row h.socket_id h.hostname

contains-map :
    (i : ℤ) (h : Host) (us : List User)
    → contains i (map socket_of (map (client_of h) us))
      ≡ (any (λ _. true) us && int_eq h.socket_id i)
unfolding client_of
contains-map i h [] = refl
contains-map i h (r ∷ us) = ground (arith, contains-map i h us)

map-cross :
    (h : Host) (hs : List Host) (us : List User)
    → map socket_of (cross client_of (h ∷ hs) us)
      ≡ map socket_of (map (client_of h) us) ++ map socket_of (cross client_of hs us)
map-cross h hs us = map-append socket_of (map (client_of h) us) (cross client_of hs us)

contains-cross :
    (i : ℤ) (hs : List Host) (us : List User)
    → contains i (map socket_of (cross client_of (filter is_due hs) us))
      ≡ (any (due_at i) hs && any (λ _. true) us)
contains-cross i [] us = refl
contains-cross i (h ∷ hs) us = elim (Bool-cases (is_due h)) [
  | inl p ↦
      rw
        (
          p,
          map-cross h (filter is_due hs) us,
          any-append (λ j. int_eq j i) (map socket_of (map (client_of h) us)),
          contains-map i h us,
          contains-cross i hs us,
        )
        (ground arith)
  | inr p ↦ rw p (contains-cross i hs us)
]

pub any-filter {ℓ} :
    {A : Type ℓ} (p : A → Bool) (xs : List A) → any (λ _. true) (filter p xs) ≡ any p xs
any-filter p [] = refl
any-filter p (x ∷ xs) = ground (arith, any-filter p xs)

any-false {ℓ} : {A : Type ℓ} (xs : List A) → any (λ _. false) xs ≡ false
any-false [] = refl
any-false (x ∷ xs) = any-false xs

-- The subquery finds an id, and then a row has it, or no row has the name.
pub user_id_cases :
    (n : Text) (us : List User)
    → ((user_id_of n us ≡ none) × (any (has_name n) us ≡ false))
      ⊎ ((k : ℕ) × (user_id_of n us ≡ some k)
          × (any (has_name n) us ≡ true)
          × (any (λ r. r.id == k) us ≡ true))
user_id_cases n [] = inl (refl, refl)
user_id_cases n (r ∷ us) = elim (Bool-cases (has_name n r)) [
  | inl p ↦ inr (r.id, rw p, rw p, rw (==_refl r.id))
  | inr p ↦ elim (user_id_cases n us) [
    | inl (a, b) ↦ inl (rw p a, rw p b)
    | inr (k, a, b, c) ↦ inr (k, rw p a, rw p b, ground arith)
  ]
]

-- A row with the id that a name selects is there exactly if the name is.
any-owned :
    (n : Text) (us : List User)
    → any (λ _. true) (filter (λ r. owned_by (user_id_of n us) r.id) us) ≡ any (has_name n) us
any-owned n us = elim (user_id_cases n us) [
  | inl (a, b) ↦ rw (a, b) (any-filter (λ _. false) us ∙ any-false us)
  | inr (k, a, b, c) ↦ rw (a, b) (any-filter (λ r. r.id == k) us ∙ c)
]

pub answer_clients :
    (i : ℤ) (n : Text) (t : Tables)
    → contains i (map socket_of (answer (select_clients n) t))
      ≡ (any (due_at i) (host_rows t) && is_known n t)
unfolding answer client_of
answer_clients i n t =
    contains-cross i (host_rows t) _
    ∙ ap (λ b. any (due_at i) (host_rows t) && b) (any-owned n (user_rows t))

pub has_row-filter :
    {A : Type 0} (f : A → Row) (p : A → Bool) (xs : List A)
    → has_row (map f (filter p xs)) ≡ any p xs
has_row-filter f p [] = refl
has_row-filter f p (x ∷ xs) = ground (arith, has_row-filter f p xs)

pub answer_needed :
    (h : Text) (t : Tables)
    → has_row (answer (select_must_sync h) t)
      ≡ any (λ r. is_host h r && r.must_sync == 1) (host_rows t)
unfolding answer
answer_needed h t = has_row-filter _ _ (host_rows t)
