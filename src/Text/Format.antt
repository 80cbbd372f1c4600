-- ===== src/Text/Format.antt =====
-- `QString::arg`, `chop`, `remove(0, n)`, `contains`: the string operations by which the sources
-- build and cut their messages and queries (client/client.cpp, server/easysyncserver.cpp,
-- server/dbmanager.cpp).
use easysync.Prelude.{
  ℕ, zero, suc, ◌+◌, ◌*◌, ◌-◌, ◌≡◌, refl, Bool, false, ◌&&◌, Option, none, some, [], ◌∷◌, ◌++◌, ltb,
  leb, ◌==◌, if◌then◌else◌, length, All, ap,
}
use easysync.Text.{Text}

abbrev pub ascii_digit : ℕ → Bool
ascii_digit c = leb 48 c && leb c 57

-- What stands behind a `%`: its number and its width, if it is a place marker `%1` to `%99`, with
-- an `L` before the number or not.
abbrev pub marker_digits : Text → Option (ℕ × ℕ)
marker_digits [] = none
marker_digits (d ∷ []) = if ascii_digit d then some (d - 48, 1) else none
marker_digits (d ∷ e ∷ s) =
    if ascii_digit d
    then (if ascii_digit e then some ((d - 48) * 10 + (e - 48), 2) else some (d - 48, 1))
    else none

abbrev pub wider : Option (ℕ × ℕ) → Option (ℕ × ℕ)
wider none = none
wider (some (n, w)) = some (n, suc w)

abbrev pub marker : Text → Option (ℕ × ℕ)
marker [] = none
marker (c ∷ s) = if c == b'L' then wider (marker_digits s) else marker_digits (c ∷ s)

abbrev pub least : Option (ℕ × ℕ) → Option ℕ → Option ℕ
least none m = m
least (some (n, w)) none = some n
least (some (n, w)) (some m) = if ltb n m then some n else some m

-- The lowest number of a place marker.
unfoldable pub lowest : Text → Option ℕ
lowest [] = none
lowest (c ∷ s) = least (if c == b'%' then marker s else none) (lowest s)

-- The width of the marker behind a `%` if its number is `n`, and 0 otherwise.
abbrev pub width_of : ℕ → Option (ℕ × ℕ) → ℕ
width_of n none = 0
width_of n (some (m, w)) = if n == m then w else 0

abbrev pub marker_width : ℕ → ℕ → Text → ℕ
marker_width n c s = if c == b'%' then width_of n (marker s) else 0

-- Each marker `n` gives way to `a`; the third argument counts the characters of a marker that are
-- still to be dropped.
unfoldable pub substitute : ℕ → Text → ℕ → Text → Text
substitute n a k [] = []
substitute n a (suc k) (c ∷ s) = substitute n a k s
substitute n a zero (c ∷ s) =
    let w = marker_width n c s in (if w == 0 then c ∷ [] else a) ++ substitute n a w s

unfoldable pub arg_at : Option ℕ → Text → Text → Text
arg_at none s a = s
arg_at (some n) s a = substitute n a 0 s

-- `s.arg(a)`: the markers with the lowest number are replaced.
unfoldable pub arg : Text → Text → Text
unfolding lowest substitute arg_at
arg s a = arg_at (lowest s) s a

-- `s.chop(n)`.
abbrev pub chop_from : ℕ → Text → Text
chop_from k [] = []
chop_from zero (c ∷ s) = []
chop_from (suc k) (c ∷ s) = c ∷ chop_from k s

abbrev pub chop : Text → ℕ → Text
chop s n = chop_from (length s - n) s

-- `s.remove(0, n)`.
abbrev pub remove_front : Text → ℕ → Text
remove_front s zero = s
remove_front [] (suc n) = []
remove_front (c ∷ s) (suc n) = remove_front s n

-- No place marker begins in `s`.
abbrev pub NoPercent : Text → Type 0
NoPercent s = All (λ c. (c == b'%') ≡ false) s

module _ (n : ℕ) (a : Text) where
  pub substitute-append :
      (s t : Text) → NoPercent s → substitute n a 0 (s ++ t) ≡ s ++ substitute n a 0 t
  unfolding substitute
  substitute-append [] t h = refl
  substitute-append (c ∷ s) t h = rw h.0 (ap (◌∷◌ c) (substitute-append s t h.1))

pub lowest-append : (s t : Text) → NoPercent s → lowest (s ++ t) ≡ lowest t
unfolding lowest
lowest-append [] t h = refl
lowest-append (c ∷ s) t h = rw h.0 (lowest-append s t h.1)

pub chop_from-append : (s t : Text) → chop_from (length s) (s ++ t) ≡ s
chop_from-append [] [] = refl
chop_from-append [] (c ∷ t) = refl
chop_from-append (d ∷ s) t = ap (◌∷◌ d) (chop_from-append s t)
