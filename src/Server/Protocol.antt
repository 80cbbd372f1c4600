-- ===== src/Server/Protocol.antt =====
-- The lines of one side are understood by the other (server/easysyncserver.cpp,
-- client/client.cpp).
use easysync.Prelude.{
  ℕ, ◌≡◌, refl, true, false, some, [], ◌∷◌, ◌++◌, ◌==◌, ap, ap₂, ◌∙◌, arith, All, All-of-any,
  All-append, sym, append_assoc,
}
use easysync.Text.{Text, codes}
use easysync.Text.Format.{arg, arg_at, NoPercent, lowest-append, substitute-append}
use easysync.Text.Scan.{
  Unicode, IsName, leading_number, bracketed, bracketed_name, bracketed_skip, unwrap, unwrap_lem,
}
use easysync.Server.Messages.{
  read_line, is_pingpong, sync_request, greeting, notification, get_user_info, id_of, with_username,
  with_hostname, contains_lower, starts_lower,
}

-- The texts with their values filled in.
pub greeting_text :
    (n h : Text)
    → NoPercent n
    → greeting n h
      ≡ codes "1. Robin, <" ++ (n ++ (codes "> from <" ++ (h ++ codes "> is on position!\n")))
unfolding greeting arg
greeting_text n h p =
    ap (λ o. arg_at o (codes "1. Robin, <" ++ (n ++ codes "> from <%2> is on position!\n")) h)
      (lowest-append n (codes "> from <%2> is on position!\n") p)
    ∙ ap (λ r. codes "1. Robin, <" ++ r)
        (substitute-append 2 h n (codes "> from <%2> is on position!\n") p)

notification_text :
    (n h : Text)
    → NoPercent n
    → notification n h
      ≡ codes "3. Robin, notify all. <" ++ (n ++ (codes "> from <" ++ (h ++ codes ">\n")))
unfolding notification arg
notification_text n h p =
    ap (λ o. arg_at o (codes "3. Robin, notify all. <" ++ (n ++ codes "> from <%2>\n")) h)
      (lowest-append n (codes "> from <%2>\n") p)
    ∙ ap (λ r. codes "3. Robin, notify all. <" ++ r)
        (substitute-append 2 h n (codes "> from <%2>\n") p)

pub sync_request_text :
    (h : Text) → sync_request h ≡ codes "2. <" ++ (h ++ codes ">, sync is needed.\n")
unfolding sync_request arg
sync_request_text h = refl

-- No `<` stands in the text.
abbrev pub NoOpen : Text → Type 0
NoOpen s = All (λ c. (c == b'<') ≡ false) s

module _ (u : Unicode) where
  -- What `getUserInfo` finds in a line of this shape.
  user_info_of :
      (before n h after : Text)
      → NoOpen before
      → IsName u n
      → NoOpen n
      → IsName u h
      → get_user_info u
          (before ++ (b'<' ∷ (n ++ b'>' ∷ (codes " from " ++ (b'<' ∷ (h ++ b'>' ∷ after))))))
        ≡ some (n, h)
  unfolding get_user_info bracketed
  user_info_of before n h after b wn on wh =
      let second : Text = b'<' ∷ (h ++ b'>' ∷ after) in
      let rest : Text = b'>' ∷ (codes " from " ++ second) in
      let first =
        bracketed_skip u before (b'<' ∷ (n ++ rest)) b
        ∙ bracketed_name u n (codes " from " ++ second) wn in
      let next = bracketed_skip u n rest on ∙ bracketed_name u h after wh in
      ap (with_username u) first
      ∙ ap (with_hostname u (unwrap (b'<' ∷ (n ++ b'>' ∷ [])))) next
      ∙ ap₂ (λ a b. some (a, b)) (unwrap_lem n) (unwrap_lem h)

  -- The server reads the user, the host and the message number 1 out of a client's greeting,
  -- where both names match the pattern of names and the user's holds no `<` and no `%`.
  pub get_user_info-greeting :
      (n h : Text)
      → IsName u n
      → NoOpen n
      → NoPercent n
      → IsName u h
      → (get_user_info u (greeting n h) ≡ some (n, h)) × (id_of u (greeting n h) ≡ some 1)
  unfolding id_of leading_number
  get_user_info-greeting n h wn on pn wh = (
    ap (get_user_info u) (greeting_text n h pn)
        ∙ user_info_of (codes "1. Robin, ") n h (codes " is on position!\n")
            (All-of-any (λ c. c == b'<') (codes "1. Robin, ") refl) wn on wh,
    ap (id_of u) (greeting_text n h pn),
  )

  -- The server reads the user, the host and the message number 3 out of a client's notification,
  -- where both names match the pattern of names and the user's holds no `<` and no `%`.
  pub get_user_info-notification :
      (n h : Text)
      → IsName u n
      → NoOpen n
      → NoPercent n
      → IsName u h
      → (get_user_info u (notification n h) ≡ some (n, h)) × (id_of u (notification n h) ≡ some 3)
  unfolding id_of leading_number
  get_user_info-notification n h wn on pn wh = (
    ap (get_user_info u) (notification_text n h pn)
        ∙ user_info_of (codes "3. Robin, notify all. ") n h (codes "\n")
            (All-of-any (λ c. c == b'<') (codes "3. Robin, notify all. ") refl) wn on wh,
    ap (id_of u) (notification_text n h pn),
  )

starts_lower-append : (p s t : Text) → starts_lower p s ≡ true → starts_lower p (s ++ t) ≡ true
starts_lower-append [] [] t h = ground arith
starts_lower-append [] (c ∷ s) t h = refl
starts_lower-append (q ∷ ps) [] t h = ground arith
starts_lower-append (q ∷ ps) (c ∷ s) t h = ground (arith, starts_lower-append ps s t)

contains_lower-append_left :
    (p s t : Text) → contains_lower p s ≡ true → contains_lower p (s ++ t) ≡ true
contains_lower-append_left [] [] [] h = refl
contains_lower-append_left [] [] (c ∷ t) h = refl
contains_lower-append_left (q ∷ ps) [] t h = ground arith
contains_lower-append_left p (c ∷ s) t h =
    ground (arith, starts_lower-append p (c ∷ s) t, contains_lower-append_left p s t)

contains_lower-append_right :
    (p s t : Text) → contains_lower p t ≡ true → contains_lower p (s ++ t) ≡ true
contains_lower-append_right p [] t h = h
contains_lower-append_right p (c ∷ s) t h = ground (arith, contains_lower-append_right p s t h)

-- A greeting from a host with `pingpong` in its name, in any case, passes for a keep-alive message.
pub is_pingpong-greeting :
    (n h : Text)
    → NoPercent n
    → contains_lower (codes "pingpong") h ≡ true
    → is_pingpong (greeting n h) ≡ true
unfolding is_pingpong
is_pingpong-greeting n h p c =
    ap (contains_lower (codes "pingpong")) (greeting_text n h p)
    ∙ contains_lower-append_right (codes "pingpong") (codes "1. Robin, <")
        (n ++ (codes "> from <" ++ (h ++ behind)))
        (contains_lower-append_right (codes "pingpong") n (codes "> from <" ++ (h ++ behind)) (
          contains_lower-append_right (codes "pingpong") (codes "> from <") (h ++ behind)
            (contains_lower-append_left (codes "pingpong") h behind c)))
  where
    behind : Text
    behind = codes "> is on position!\n"

-- A line is read up to its newline, and what is behind it stays.
pub read_line_whole :
    (s t : Text) → All (λ c. (c == 10) ≡ false) s → read_line (s ++ 10 ∷ t) ≡ some (s ++ 10 ∷ [], t)
unfolding read_line
read_line_whole [] t h = refl
read_line_whole (c ∷ s) t h = rw (h.0, read_line_whole s t h.1)

-- No newline stands in the text.
abbrev pub NoNewline : Text → Type 0
NoNewline s = All (λ c. (c == 10) ≡ false) s

greeting_line : Text → Text → Text
greeting_line n h =
    codes "1. Robin, <" ++ (n ++ (codes "> from <" ++ (h ++ codes "> is on position!")))

greeting-eq-line : (n h : Text) → NoPercent n → greeting n h ≡ greeting_line n h ++ 10 ∷ []
unfolding greeting_line
greeting-eq-line n h p = greeting_text n h p ∙ simp append_assoc

greeting_line-NoNewline : (n h : Text) → NoNewline n → NoNewline h → NoNewline (greeting_line n h)
unfolding greeting_line
greeting_line-NoNewline n h wn wh =
    let free = λ (s : Text). All-of-any (λ c. c == 10) s in
    let P = λ (c : ℕ). (c == 10) ≡ false in
    All-append P (codes "1. Robin, <") _ (free (codes "1. Robin, <") refl) (
      All-append P n _ wn (
        All-append P (codes "> from <") _ (free (codes "> from <") refl)
          (All-append P h _ wh (free (codes "> is on position!") refl))))

-- A greeting is one line.
pub read_line-greeting :
    (n h rest : Text)
    → NoPercent n
    → NoNewline n
    → NoNewline h
    → read_line (greeting n h ++ rest) ≡ some (greeting n h, rest)
read_line-greeting n h rest p wn wh =
    let line = greeting_line n h in
    ap (λ g. read_line (g ++ rest)) (greeting-eq-line n h p)
    ∙ ap read_line (append_assoc line (10 ∷ []) rest)
    ∙ read_line_whole line rest (greeting_line-NoNewline n h wn wh)
    ∙ ap (λ g. some (g, rest)) (sym (greeting-eq-line n h p))
