-- ===== src/Text/Scan.antt =====
-- The two regular expressions of the sources, `^\d+\b` and `<\b[^>]*>`, and `toUInt`
-- (server/easysyncserver.cpp, client/client.cpp).
use easysync.Prelude.{
  ℕ, ◌+◌, ◌*◌, ◌-◌, ◌^◌, ◌%◌, ◌≡◌, refl, Bool, true, false, ◌&&◌, ◌||◌, Option, none, some, [], ◌∷◌,
  ◌++◌, arith, ltb, leb, ◌==◌, if◌then◌else◌, length, length-append, All, any, ap, not,
}
use easysync.Text.{Text}
use easysync.Text.Format.{ascii_digit, chop, remove_front, chop_from-append}

-- What `QChar` says of the characters past ASCII: the letters and marks, and the decimal digits.
pub record Unicode : Type 0 where
  pub letter : ℕ → Bool
  pub decimal : ℕ → Bool

abbrev pub ascii_word : ℕ → Bool
ascii_word c =
    ascii_digit c || (leb b'A' c && leb c b'Z') || (leb b'a' c && leb c b'z') || c == b'_'

abbrev pub up_to_close : Text → Text
up_to_close [] = []
up_to_close (c ∷ s) = let rest = up_to_close s in if c == b'>' then c ∷ [] else c ∷ rest

abbrev pub has_close : Text → Bool
has_close = any (λ c. c == b'>')

module _ (u : Unicode) where
  -- `\d`
  abbrev pub is_digit : ℕ → Bool
  is_digit c = if ltb c 128 then ascii_digit c else u.decimal c

  -- `\w`
  abbrev pub is_word : ℕ → Bool
  is_word c = if ltb c 128 then ascii_word c else (u.letter c || u.decimal c)

  abbrev pub starts_word : Text → Bool
  starts_word [] = false
  starts_word (c ∷ s) = is_word c

  -- The longest run of digits at the front, if a word ends behind it; `m` says that a digit has
  -- been read.
  abbrev pub digit_run : Bool → Text → Option Text
  digit_run m [] = if m then some [] else none
  digit_run m (c ∷ s) =
      let rest = digit_run true s in
      if is_digit c
      then elim rest [ none ↦ none | some ds ↦ some (c ∷ ds) ]
      else (if m && not (is_word c) then some [] else none)

  -- What `^\d+\b` matches.
  unfoldable pub leading_number : Text → Option Text
  leading_number s = digit_run false s

  -- The first match of `<\b[^>]*>`, and the text behind the place where it begins, in which the
  -- next search starts.
  unfoldable pub bracketed : Text → Option (Text × Text)
  bracketed [] = none
  bracketed (c ∷ s) =
      let later = bracketed s in
      if c == b'<' && starts_word s && has_close s then some (c ∷ up_to_close s, s) else later

-- `cap.chop(1); cap.remove(0, 1)`
abbrev pub unwrap : Text → Text
unwrap cap = remove_front (chop cap 1) 1

abbrev pub decimal_value : ℕ → Text → Option ℕ
decimal_value n [] = some n
decimal_value n (c ∷ s) =
    let rest = decimal_value (n * 10 + (c - 48)) s in if ascii_digit c then rest else none

abbrev pub below_limit : ℕ → Option ℕ → ℕ
below_limit limit none = 0
below_limit limit (some n) = if ltb n limit then n else 0

-- `toUInt()` of a run of digits: 0 if it is no number of 32 bits, or has other than ASCII digits.
abbrev pub to_uint : Text → ℕ
to_uint [] = 0
to_uint (c ∷ s) = below_limit (2 ^ 32) (decimal_value 0 (c ∷ s))

-- The message number, a `quint16`.
abbrev pub message_id : Text → ℕ
message_id cap = to_uint cap % 2 ^ 16

-- A text that can stand in `<>`: it begins with a word character and holds no `>`.
abbrev pub IsName : Unicode → Text → Type 0
IsName u s = (starts_word u s ≡ true) × (has_close s ≡ false)

has_close-append : (s t : Text) → has_close (s ++ b'>' ∷ t) ≡ true
has_close-append [] t = refl
has_close-append (c ∷ s) t = ground (arith, has_close-append s t)

up_to_close-append :
    (s t : Text) → has_close s ≡ false → up_to_close (s ++ b'>' ∷ t) ≡ s ++ b'>' ∷ []
up_to_close-append [] t h = refl
up_to_close-append (c ∷ s) t h = ground (arith, up_to_close-append s t)

module _ (u : Unicode) where
  starts_word-append : (s t : Text) → starts_word u s ≡ true → starts_word u (s ++ t) ≡ true
  starts_word-append [] t h = ground arith
  starts_word-append (c ∷ s) t h = h

  -- A name in brackets is found where it stands.
  pub bracketed_name :
      (s t : Text)
      → IsName u s
      → bracketed u (b'<' ∷ (s ++ b'>' ∷ t)) ≡ some (b'<' ∷ (s ++ b'>' ∷ []), s ++ b'>' ∷ t)
  unfolding bracketed
  bracketed_name s t h =
      rw (starts_word-append s (b'>' ∷ t) h.0, has_close-append s t, up_to_close-append s t h.1)

  pub bracketed_skip :
      (s t : Text) → All (λ c. (c == b'<') ≡ false) s → bracketed u (s ++ t) ≡ bracketed u t
  unfolding bracketed
  bracketed_skip [] t h = refl
  bracketed_skip (c ∷ s) t h = rw h.0 (bracketed_skip s t h.1)

pub unwrap_lem : (s : Text) → unwrap (b'<' ∷ (s ++ b'>' ∷ [])) ≡ s
unwrap_lem s =
    let count : length (b'<' ∷ (s ++ b'>' ∷ [])) - 1 ≡ length (b'<' ∷ s) =
      omega (arith, length-append s (b'>' ∷ [])) in
    rw count (ap (λ t. remove_front t 1) (chop_from-append (b'<' ∷ s) (b'>' ∷ [])))
