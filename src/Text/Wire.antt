-- ===== src/Text/Wire.antt =====
-- The way of a text from one program to the other: `toUtf8()` of client/client.cpp and `QTextStream` of
-- server/easysyncserver.cpp, and the `QString` that the other end makes of the bytes of a line. The
-- codecs stand in Qt, so they are parameters here.
use easysync.Prelude.{ℕ, ◌≡◌, Bool, false, ◌||◌, ◌==◌, leb, All}
use easysync.Text.{Text}

abbrev pub beyond_ascii : ℕ → Bool
beyond_ascii c = c == 0 || leb 128 c

-- Every character of the text is an ASCII character other than 0.
abbrev pub IsAscii : Text → Type 0
IsAscii t = All (λ c. beyond_ascii c ≡ false) t

-- What is made of a text that a client writes, and of one that the server writes.
pub record Wire : Type 0 where
  pub to_server : Text → Text
  pub to_client : Text → Text

-- The codecs agree on ASCII, and need agree on nothing else.
pub record KeepsAscii (w : Wire) : Type 0 where
  pub server_gets : (t : Text) → IsAscii t → w.to_server t ≡ t
  pub client_gets : (t : Text) → IsAscii t → w.to_client t ≡ t
