-- ===== src/Text/Numbers.antt =====
-- Numbers at the front of a text, in decimal: what `^\d+\b` and `toUInt` make of them.
use easysync.Prelude.{
  ℕ, ◌+◌, ◌*◌, ◌-◌, ◌^◌, ◌%◌, ◌≡◌, refl, true, false, some, suc, inl, inr, Bool-cases, List, [],
  ◌∷◌, ◌++◌, arith, ltb, length, map, All, ap, ◌∙◌, if◌then◌else◌, ◌==◌, ◌<◌,
}
use native.Mathlib.Nat.{pow-succ', add-mul, mul_assoc}
use easysync.Text.{Text}
use easysync.Text.Format.{ascii_digit}
use easysync.Text.Scan.{
  Unicode, is_digit, is_word, digit_run, leading_number, decimal_value, below_limit, to_uint,
  message_id,
}

-- A numeral is a list of digits.
abbrev pub IsDigit : ℕ → Type 0
IsDigit d = ltb d 10 ≡ true

abbrev pub digit_text : List ℕ → Text
digit_text ds = map (λ d. d + 48) ds

abbrev pub value : List ℕ → ℕ
value [] = 0
value (d ∷ ds) = d * 10 ^ length ds + value ds

-- A number of 32 bits keeps its last 16, and a longer one counts as 0.
abbrev pub wrapped : ℕ → ℕ
wrapped n = if ltb n (2 ^ 32) then n % 2 ^ 16 else 0

digit-ascii_digit : (d : ℕ) → IsDigit d → ascii_digit (d + 48) ≡ true
digit-ascii_digit d h = ground arith

place : (n d v k : ℕ) → (n * 10 + (d + 48 - 48)) * 10 ^ k + v ≡ n * 10 ^ suc k + (d * 10 ^ k + v)
place n d v k =
    let back : d + 48 - 48 ≡ d = omega arith in
    rw (back, pow-succ' 10 k, add-mul (n * 10) d (10 ^ k), mul_assoc n 10 (10 ^ k)) (omega arith)

decimal_value-digit_text :
    (n : ℕ) (ds : List ℕ)
    → All IsDigit ds
    → decimal_value n (digit_text ds) ≡ some (n * 10 ^ length ds + value ds)
decimal_value-digit_text n [] h = ap some (omega arith)
decimal_value-digit_text n (d ∷ ds) h =
    rw (digit-ascii_digit d h.0, decimal_value-digit_text (n * 10 + (d + 48 - 48)) ds h.1)
      (ap some (place n d (value ds) (length ds)))

to_uint-digit_text :
    (d : ℕ) (ds : List ℕ)
    → All IsDigit (d ∷ ds)
    → to_uint (digit_text (d ∷ ds)) ≡ (if ltb (value (d ∷ ds)) (2 ^ 32) then value (d ∷ ds) else 0)
to_uint-digit_text d ds h =
    let whole : 0 * 10 ^ length (d ∷ ds) + value (d ∷ ds) ≡ value (d ∷ ds) = omega arith in
    ap (below_limit (2 ^ 32)) (decimal_value-digit_text 0 (d ∷ ds) h)
    ∙ ap (λ n. if ltb n (2 ^ 32) then n else 0) whole

pub message_id-digit_text :
    (d : ℕ) (ds : List ℕ)
    → All IsDigit (d ∷ ds)
    → message_id (digit_text (d ∷ ds)) ≡ wrapped (value (d ∷ ds))
message_id-digit_text d ds h =
    ap (λ n. n % 2 ^ 16) (to_uint-digit_text d ds h) ∙ wrap (value (d ∷ ds))
  where
    wrap : (n : ℕ) → (if ltb n (2 ^ 32) then n else 0) % 2 ^ 16 ≡ wrapped n
    wrap n = elim (Bool-cases (ltb n (2 ^ 32))) [ inl p ↦ rw p refl | inr p ↦ rw p refl ]

module _ (u : Unicode) where
  digit-is_digit : (d : ℕ) → IsDigit d → is_digit u (d + 48) ≡ true
  digit-is_digit d h = ground arith

  digit_run-digit_text :
      (ds : List ℕ) (c : ℕ) (s : Text)
      → All IsDigit ds
      → is_word u c ≡ false
      → digit_run u true (digit_text ds ++ c ∷ s) ≡ some (digit_text ds)
  digit_run-digit_text [] c s h w = ground arith
  digit_run-digit_text (d ∷ ds) c s h w =
      rw (digit-is_digit d h.0, digit_run-digit_text ds c s h.1 w)

  pub leading_number-digit_text :
      (d : ℕ) (ds : List ℕ) (c : ℕ) (s : Text)
      → All IsDigit (d ∷ ds)
      → is_word u c ≡ false
      → leading_number u (digit_text (d ∷ ds) ++ c ∷ s) ≡ some (digit_text (d ∷ ds))
  unfolding leading_number
  leading_number-digit_text d ds c s h w =
      rw (digit-is_digit d h.0, digit_run-digit_text ds c s h.1 w)

pub digit_text-NoNewline :
    (ds : List ℕ) → All IsDigit ds → All (λ c. (c == 10) ≡ false) (digit_text ds)
digit_text-NoNewline [] h = tt
digit_text-NoNewline (d ∷ ds) h = (ground (arith, h.0), digit_text-NoNewline ds h.1)

pub wrapped-lt : (n : ℕ) → wrapped n < 2 ^ 16
wrapped-lt n = ground arith
