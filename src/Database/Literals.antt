-- ===== src/Database/Literals.antt =====
-- The string literals in the text of an SQL statement: `'…'`, with `''` for a quote inside.
use easysync.Prelude.{
  ℕ, ◌≡◌, refl, Bool, true, false, List, [], ◌∷◌, ◌++◌, ◌==◌, All, ap, ◌∙◌, append-nil, get_or,
}
use easysync.Text.{Text}

-- `closing`: behind a quote that ends the literal unless another follows.
pub data Mode : Type 0 where
  outside inside closing : Mode

abbrev pub next_mode : Mode → Bool → Mode
next_mode outside true = inside
next_mode outside false = outside
next_mode inside true = closing
next_mode inside false = inside
next_mode closing true = inside
next_mode closing false = outside

-- The rest of the literal that is being read, and the literals behind it.
pub data Found : Type 0 where
  found : Text → List Text → Found

abbrev pub add : Mode → Bool → ℕ → Found → Found
add outside true c (found t ts) = found [] (t ∷ ts)
add outside false c (found t ts) = found [] ts
add inside true c (found t ts) = found t ts
add inside false c (found t ts) = found (c ∷ t) ts
add closing true c (found t ts) = found (c ∷ t) ts
add closing false c (found t ts) = found [] ts

unfoldable pub lex : Mode → Text → Found
lex m [] = found [] []
lex m (c ∷ s) = add m (c == 39) c (lex (next_mode m (c == 39)) s)

-- What the characters of `s` add to what is found behind them.
abbrev pub wrap : Mode → Text → Found → Found
wrap m [] f = f
wrap m (c ∷ s) f = add m (c == 39) c (wrap (next_mode m (c == 39)) s f)

abbrev pub literals_of : Found → List Text
literals_of (found t ts) = ts

unfoldable pub literals : Text → List Text
unfolding lex
literals s = literals_of (lex outside s)

-- The n-th literal of a statement.
abbrev pub literal : Text → ℕ → Text
literal s n = get_or (literals s) n []

-- No apostrophe stands in `s`.
abbrev pub NoQuote : Text → Type 0
NoQuote s = All (λ c. (c == 39) ≡ false) s

abbrev pub prepend : Text → Found → Found
prepend s (found t ts) = found (s ++ t) ts

prepend-cons : (c : ℕ) (s : Text) (f : Found) → add inside false c (prepend s f) ≡ prepend (c ∷ s) f
prepend-cons c s (found t ts) = refl

prepend-nil : (f : Found) → f ≡ prepend [] f
prepend-nil (found t ts) = refl

-- A text without apostrophes is read whole.
pub lex-append : (s t : Text) → NoQuote s → lex inside (s ++ t) ≡ prepend s (lex inside t)
unfolding lex
lex-append [] t h = prepend-nil (lex inside t)
lex-append (c ∷ s) t h = rw (h.0, lex-append s t h.1) (prepend-cons c s (lex inside t))

-- A literal ends at the first apostrophe behind it that no other follows.
pub lex_literal :
    (s t : Text) (ts : List Text)
    → NoQuote s
    → lex closing t ≡ found [] ts
    → lex inside (s ++ 39 ∷ t) ≡ found s ts
unfolding lex
lex_literal s t ts h e =
    lex-append s (39 ∷ t) h
    ∙ ap (λ f. prepend s (add inside true 39 f)) e
    ∙ ap (λ s'. found s' ts) (append-nil s)
