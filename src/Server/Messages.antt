-- ===== src/Server/Messages.antt =====
-- The lines that client and server exchange: how server/easysyncserver.cpp and client/client.cpp
-- write them and take them apart.
use easysync.Prelude.{
  ℕ, ◌+◌, Bool, true, false, ◌&&◌, ◌||◌, Option, none, some, [], ◌∷◌, ◌==◌, leb, if◌then◌else◌,
}
use easysync.Text.{Text, codes}
use easysync.Text.Format.{arg}
use easysync.Text.Scan.{Unicode, leading_number, bracketed, unwrap, message_id}

-- `canReadLine()` and `readLine()`: a whole line with its newline, and what is buffered behind it.
abbrev pub grow_line : ℕ → Option (Text × Text) → Option (Text × Text)
grow_line c none = none
grow_line c (some (line, rest)) = some (c ∷ line, rest)

unfoldable pub read_line : Text → Option (Text × Text)
read_line [] = none
read_line (c ∷ s) =
    let later = grow_line c (read_line s) in if c == 10 then some (c ∷ [], s) else later

abbrev pub lower : ℕ → ℕ
lower c = if leb b'A' c && leb c b'Z' then c + 32 else c

abbrev pub starts_lower : Text → Text → Bool
starts_lower [] s = true
starts_lower (p ∷ ps) [] = false
starts_lower (p ∷ ps) (c ∷ s) = lower c == p && starts_lower ps s

abbrev pub contains_lower : Text → Text → Bool
contains_lower p [] = starts_lower p []
contains_lower p (c ∷ s) = starts_lower p (c ∷ s) || contains_lower p s

-- `contains("pingpong", Qt::CaseInsensitive)`
unfoldable pub is_pingpong : Text → Bool
is_pingpong message = contains_lower (codes "pingpong") message

-- EasysyncServer::notifyClient, the text.
unfoldable pub sync_request : Text → Text
sync_request hostname = arg (codes "2. <%1>, sync is needed.\n") hostname

-- Client::sendGreetings, the text.
unfoldable pub greeting : Text → Text → Text
greeting username hostname =
    arg (arg (codes "1. Robin, <%1> from <%2> is on position!\n") username) hostname

-- Client::handleSyncIsFinished, the two texts.
unfoldable pub notification : Text → Text → Text
notification username hostname =
    arg (arg (codes "3. Robin, notify all. <%1> from <%2>\n") username) hostname

abbrev pub roger : Text
roger = codes "2. Roger\n"

-- Client::sendKeepAlive, the text.
abbrev pub pingpong : Text
pingpong = codes "pingpong\n"

module _ (u : Unicode) where
  abbrev pub with_hostname : Text → Option (Text × Text) → Option (Text × Text)
  with_hostname username none = none
  with_hostname username (some (cap, rest)) = some (username, unwrap cap)

  abbrev pub with_username : Option (Text × Text) → Option (Text × Text)
  with_username none = none
  with_username (some (cap, rest)) = with_hostname (unwrap cap) (bracketed u rest)

  -- EasysyncServer::getUserInfo: the first two texts in `<>`.
  unfoldable pub get_user_info : Text → Option (Text × Text)
  get_user_info message = with_username (bracketed u message)

  abbrev pub number_of : Option Text → Option ℕ
  number_of none = none
  number_of (some cap) = some (message_id cap)

  -- The message number at the front of a line, or nothing if there is none.
  unfoldable pub id_of : Text → Option ℕ
  id_of message = number_of (leading_number u message)
