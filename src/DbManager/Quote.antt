-- ===== src/DbManager/Quote.antt =====
-- `sqlQuote` and `sqlDeQuote` of server/dbmanager.h.
use easysync.Prelude.{
  ℕ, ◌≡◌, ◌≢◌, refl, Bool, true, false, ◌&&◌, ◌||◌, [], ◌∷◌, ◌++◌, ◌==◌, All, ap, any, arith,
  if◌then◌else◌, append_assoc,
}
use easysync.Text.{Text}
use easysync.Text.Format.{NoPercent}
use easysync.Database.Literals.{NoQuote}

-- `replace` of a one-character pattern.
abbrev replace : ℕ → Text → Text → Text
replace c new [] = []
replace c new (d ∷ s) = (if d == c then new else d ∷ []) ++ replace c new s

-- `replace("\\\"", "\"")`: the pattern has two characters, a backslash and a double quote.
abbrev replace_escaped : Text → Text
replace_escaped [] = []
replace_escaped (c ∷ []) = c ∷ []
replace_escaped (c ∷ d ∷ s) =
    let whole = d ∷ replace_escaped s in
    let rest = c ∷ replace_escaped (d ∷ s) in if c == 92 && d == 34 then whole else rest

-- A double quote gets a backslash, and an apostrophe becomes a backtick.
unfoldable pub sql_quote : Text → Text
sql_quote text = replace 39 (96 ∷ []) (replace 34 (92 ∷ 34 ∷ []) text)

unfoldable pub sql_de_quote : Text → Text
sql_de_quote text = replace 96 (39 ∷ []) (replace_escaped text)

-- A double quote or an apostrophe stands in the text.
abbrev pub has_quote : Text → Bool
has_quote = any (λ c. c == 34 || c == 39)

abbrev quoted_char : ℕ → Text
quoted_char c = if c == 34 then 92 ∷ 34 ∷ [] else if c == 39 then 96 ∷ [] else c ∷ []

replace-append :
    (c : ℕ) (new s t : Text) → replace c new (s ++ t) ≡ replace c new s ++ replace c new t
replace-append c new [] t = refl
replace-append c new (d ∷ s) t =
    rw (replace-append c new s t, append_assoc (if d == c then new else d ∷ []))

replace-quoted :
    (c : ℕ) → replace 39 (96 ∷ []) (if c == 34 then 92 ∷ 34 ∷ [] else c ∷ []) ≡ quoted_char c
replace-quoted c = ground arith

-- Quoting goes character by character.
pub sql_quote-cons : (c : ℕ) (s : Text) → sql_quote (c ∷ s) ≡ quoted_char c ++ sql_quote s
unfolding sql_quote
sql_quote-cons c s =
    rw (replace-append 39 (96 ∷ []) (if c == 34 then 92 ∷ 34 ∷ [] else c ∷ []))
      (ap (λ t. t ++ sql_quote s) (replace-quoted c))

-- No apostrophe is left, so a quoted text cannot end the literal that it stands in.
pub sql_quote-NoQuote : (s : Text) → NoQuote (sql_quote s)
unfolding sql_quote
sql_quote-NoQuote [] = tt
sql_quote-NoQuote (c ∷ s) = rw (sql_quote-cons c s) (ground (arith, sql_quote-NoQuote s))

-- Quoting brings in no `%`.
pub sql_quote-NoPercent : (s : Text) → NoPercent s → NoPercent (sql_quote s)
unfolding sql_quote
sql_quote-NoPercent [] h = tt
sql_quote-NoPercent (c ∷ s) h =
    rw (sql_quote-cons c s) (ground (arith, h, sql_quote-NoPercent s h.1))

-- Quoting leaves exactly the texts as they are that hold no quote of either kind.
pub sql_quote-eq_self : (s : Text) → has_quote s ≡ false → sql_quote s ≡ s
unfolding sql_quote
sql_quote-eq_self [] h = refl
sql_quote-eq_self (c ∷ s) h = rw (sql_quote-cons c s) (ground (arith, sql_quote-eq_self s))

pub sql_quote-ne_self : (s : Text) → has_quote s ≡ true → sql_quote s ≢ s
unfolding sql_quote
sql_quote-ne_self [] h = ground arith
sql_quote-ne_self (c ∷ s) h = rw (sql_quote-cons c s) λ e. ground (arith, sql_quote-ne_self s)

abbrev starts_quote : Text → Bool
starts_quote [] = false
starts_quote (c ∷ s) = c == 34

sql_quote-head : (s : Text) → starts_quote (sql_quote s) ≡ false
unfolding sql_quote
sql_quote-head [] = refl
sql_quote-head (c ∷ s) = rw (sql_quote-cons c s) (ground arith)

replace_escaped-cons :
    (c : ℕ) (s : Text) → starts_quote s ≡ false → replace_escaped (c ∷ s) ≡ c ∷ replace_escaped s
replace_escaped-cons c [] h = refl
replace_escaped-cons c (d ∷ s) h = ground arith

abbrev unescaped : ℕ → ℕ
unescaped c = if c == 39 then 96 else c

unescape_char :
    (c : ℕ) (q : Text)
    → starts_quote q ≡ false
    → replace_escaped (quoted_char c ++ q) ≡ unescaped c ∷ replace_escaped q
unescape_char c q h = ground (arith, replace_escaped-cons c q, replace_escaped-cons 96 q)

restore_char :
    (c : ℕ) (q : Text)
    → (c == 96) ≡ false
    → replace 96 (39 ∷ []) (unescaped c ∷ q) ≡ c ∷ replace 96 (39 ∷ []) q
restore_char c q h = ground arith

-- De-quoting undoes quoting for every text without a backtick.
pub sql_de_quote-sql_quote :
    (s : Text) → All (λ c. (c == 96) ≡ false) s → sql_de_quote (sql_quote s) ≡ s
unfolding sql_quote sql_de_quote
sql_de_quote-sql_quote [] h = refl
sql_de_quote-sql_quote (c ∷ s) h =
    rw
      (
        sql_quote-cons c s,
        unescape_char c (sql_quote s) (sql_quote-head s),
        restore_char c (replace_escaped (sql_quote s)) h.0,
      )
      (ap (◌∷◌ c) (sql_de_quote-sql_quote s h.1))
