-- ===== src/Server/Lists.antt =====
-- `QList` as server/easysyncserver.cpp uses it. A read or a write outside of the list is undefined
-- in Qt (an assertion in a debug build): it is the result `out_of_range`.
use easysync.Prelude.{
  ℕ, zero, suc, ℤ, pos, negsuc, minus_one, Bool, not, List, [], ◌∷◌, ◌++◌, ◌==◌, length, ltb, set,
  filter, if◌then◌else◌,
}

pub data Run {ℓ} (A : Type ℓ) : Type ℓ where
  returns : A → Run A
  out_of_range : Run A

infixl 5 ◌>>=◌
abbrev pub ◌>>=◌ {ℓ κ} : {A : Type ℓ} {B : Type κ} → Run A → (A → Run B) → Run B
returns a >>= f = f a
out_of_range >>= f = out_of_range

module _ {ℓ} {A : Type ℓ} where
  abbrev pub at_index : List A → ℕ → Run A
  at_index [] i = out_of_range
  at_index (x ∷ xs) zero = returns x
  at_index (x ∷ xs) (suc i) = at_index xs i

  -- `at(i)`
  abbrev pub at : List A → ℤ → Run A
  at xs (pos i) = at_index xs i
  at xs (negsuc i) = out_of_range

  -- `replace(i, x)`
  abbrev pub replace : List A → ℤ → A → Run (List A)
  replace xs (pos i) x = if ltb i (length xs) then returns (set xs i x) else out_of_range
  replace xs (negsuc i) x = out_of_range

  -- `append(x)`
  abbrev pub append : List A → A → List A
  append xs x = xs ++ x ∷ []

  -- `removeAll(x)`, by the equality of the elements.
  abbrev pub remove_all : (A → A → Bool) → List A → A → List A
  remove_all eq xs x = filter (λ y. not (eq y x)) xs

abbrev pub next_index : ℤ → ℤ
next_index (pos i) = pos (suc i)
next_index (negsuc i) = negsuc i

-- `indexOf(x)`: the first place of `x`, or -1.
abbrev pub index_of : List ℕ → ℕ → ℤ
index_of [] x = minus_one
index_of (y ∷ ys) x = if y == x then pos 0 else next_index (index_of ys x)
