-- ===== src/Exchange/Numbers.antt =====
-- The number at the front of a line, as both ends of the connection read it: a `quint16` that is made of
-- a number of 32 bits (server/easysyncserver.cpp, client/client.cpp).
use easysync.Prelude.{
  ℕ, ◌≡◌, refl, false, some, List, [], ◌∷◌, ◌++◌, ap, ◌∙◌, All, All-append, append_assoc, ◌==◌, ◌<◌,
  ◌^◌,
}
use easysync.Text.{Text}
use easysync.Text.Numbers.{
  IsDigit, digit_text, value, wrapped, leading_number-digit_text, message_id-digit_text,
  digit_text-NoNewline, wrapped-lt,
}
use easysync.Text.Scan.{Unicode, is_word}
use easysync.Database.Engine.{Engine}
use easysync.Server.{Server, read_client, handle_line, handle_message}
use easysync.Server.Lists.{returns, ◌>>=◌}
use easysync.Server.Messages.{read_line, is_pingpong, id_of, number_of}
use easysync.Server.Protocol.{NoNewline, read_line_whole}
use easysync.Client.State.{Client}
use easysync.Client.{read_from_server, on_message}
use easysync.Client.Requests.{chop-line}
use easysync.Client.Watcher.{Folders}

module _ (k : Unicode) (d : ℕ) (ds : List ℕ) (c : ℕ) (s : Text) (digits : All IsDigit (d ∷ ds))
    (ends : is_word k c ≡ false) (line_end : NoNewline (c ∷ s)) where
  -- A numeral, a character that ends it, and more, without its newline.
  abbrev pub numbered : Text
  numbered = digit_text (d ∷ ds) ++ c ∷ s

  id_of-numbered :
      (t : Text) → id_of k (digit_text (d ∷ ds) ++ c ∷ t) ≡ some (wrapped (value (d ∷ ds)))
  unfolding id_of
  id_of-numbered t =
      ap (number_of k) (leading_number-digit_text k d ds c t digits ends)
      ∙ ap some (message_id-digit_text d ds digits)

  read_line-numbered :
      (rest : Text) → read_line (numbered ++ 10 ∷ rest) ≡ some (numbered ++ 10 ∷ [], rest)
  read_line-numbered rest = read_line_whole numbered rest (
      All-append (λ c. (c == 10) ≡ false) (digit_text (d ∷ ds)) (c ∷ s)
        (digit_text-NoNewline (d ∷ ds) digits) line_end)

  server-numbered :
      (e : Engine) (socket now : ℕ) (rest : Text) (st : Server e)
      → st.disabled ≡ false
      → is_pingpong (numbered ++ 10 ∷ []) ≡ false
      → read_client e k socket now (numbered ++ 10 ∷ rest) st ≡ (
          handle_message e k (some (wrapped (value (d ∷ ds)))) socket now (numbered ++ 10 ∷ []) st
          >>= λ st'. returns (rest, st'))
  unfolding read_client handle_line
  server-numbered e socket now rest st open_ ping =
      let number : id_of k (numbered ++ 10 ∷ []) ≡ some (wrapped (value (d ∷ ds))) =
        ap (id_of k) (append_assoc (digit_text (d ∷ ds)) (c ∷ s) (10 ∷ []))
        ∙ id_of-numbered (s ++ 10 ∷ []) in
      rw (open_, read_line-numbered rest, ping, number) refl

  client-numbered :
      (disk : Folders) (rest : Text) (cl : Client)
      → read_from_server k disk (numbered ++ 10 ∷ rest) cl
        ≡ (rest, on_message k disk (some (wrapped (value (d ∷ ds)))) numbered cl)
  unfolding read_from_server
  client-numbered disk rest cl =
      rw (read_line-numbered rest, chop-line numbered 10, id_of-numbered s) refl

  -- A line that begins with a numeral of at least one digit, followed by a character that ends a
  -- word, is handled by its number modulo 65536 if that number is below 2 to the 32, and as
  -- number 0 if not: by a server that is not disabled, where the line holds no keep-alive text,
  -- and by a client. Both leave what stands behind the line in the buffer.
  pub numbered_line :
      (e : Engine) (socket now : ℕ) (rest : Text) (st : Server e) (disk : Folders) (cl : Client)
      → st.disabled ≡ false
      → is_pingpong (numbered ++ 10 ∷ []) ≡ false
      → (wrapped (value (d ∷ ds)) < 2 ^ 16)
        × (read_client e k socket now (numbered ++ 10 ∷ rest) st ≡ (
            handle_message e k (some (wrapped (value (d ∷ ds)))) socket now (numbered ++ 10 ∷ []) st
            >>= λ st'. returns (rest, st')))
        × (read_from_server k disk (numbered ++ 10 ∷ rest) cl
            ≡ (rest, on_message k disk (some (wrapped (value (d ∷ ds)))) numbered cl))
  numbered_line e socket now rest st disk cl open_ ping = (
    wrapped-lt (value (d ∷ ds)),
    server-numbered e socket now rest st open_ ping,
    client-numbered disk rest cl,
  )
