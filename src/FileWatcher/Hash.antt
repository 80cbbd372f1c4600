-- ===== src/FileWatcher/Hash.antt =====
-- `QHash` as client/qt uses it: an association list with each key once. The order of its iteration is
-- that of insertion.
use easysync.Prelude.{
  ◌≡◌, refl, ◌↔◌, Bool, true, false, not, ◌&&◌, Option, none, some, List, [], ◌∷◌, arith,
  if◌then◌else◌,
}

pub record Entry {ℓ κ} (K : Type ℓ) (V : Type κ) : Type (ℓ ⊔ κ) where
  pub key : K
  pub value : V

abbrev pub Hash {ℓ κ} : Type ℓ → Type κ → Type (ℓ ⊔ κ)
Hash K V = List (Entry K V)

module _ {ℓ κ} {K : Type ℓ} {V : Type κ} (eq : K → K → Bool) where
  -- `value`, with `none` for the default.
  abbrev pub lookup : K → Hash K V → Option V
  lookup k [] = none
  lookup k (e ∷ h) = if eq e.key k then some e.value else lookup k h

  abbrev pub contains : K → Hash K V → Bool
  contains k [] = false
  contains k (e ∷ h) = if eq e.key k then true else contains k h

  abbrev pub insert : K → V → Hash K V → Hash K V
  insert k v [] = record { key = k; value = v } ∷ []
  insert k v (e ∷ h) = if eq e.key k then record { key = k; value = v } ∷ h else e ∷ insert k v h

  -- `remove`; its result is whether the key was there.
  abbrev pub erase : K → Hash K V → Hash K V
  erase k [] = []
  erase k (e ∷ h) = if eq e.key k then erase k h else e ∷ erase k h

  module _ (eq_iff : (a b : K) → (eq a b ≡ true) ↔ (a ≡ b)) where
    pub contains-insert :
        (k j : K) (v : V) (h : Hash K V)
        → contains j (insert k v h) ≡ (if eq k j then true else contains j h)
    contains-insert k j v [] = refl
    contains-insert k j v (e ∷ h) =
        ground (arith, contains-insert k j v h, eq_iff e.key k, eq_iff k j, eq_iff e.key j)

    pub contains-erase :
        (k j : K) (h : Hash K V) → contains j (erase k h) ≡ (contains j h && not (eq k j))
    contains-erase k j [] = refl
    contains-erase k j (e ∷ h) =
        ground (arith, contains-erase k j h, eq_iff e.key k, eq_iff k j, eq_iff e.key j)

    pub lookup-insert :
        (k j : K) (v : V) (h : Hash K V)
        → lookup j (insert k v h) ≡ (if eq k j then some v else lookup j h)
    lookup-insert k j v [] = refl
    lookup-insert k j v (e ∷ h) =
        ground (arith, lookup-insert k j v h, eq_iff e.key k, eq_iff k j, eq_iff e.key j)

    pub lookup-erase :
        (k j : K) (h : Hash K V) → lookup j (erase k h) ≡ (if eq k j then none else lookup j h)
    lookup-erase k j [] = ground arith
    lookup-erase k j (e ∷ h) =
        ground (arith, lookup-erase k j h, eq_iff e.key k, eq_iff k j, eq_iff e.key j)
