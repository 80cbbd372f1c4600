-- ===== src/Marks/Events.antt =====
-- What a line of a socket tells of the marks (server/easysyncserver.cpp, readClient).
use easysync.Prelude.{
  ℕ, Bool, not, ◌&&◌, Option, none, some, List, [], ◌∷◌, ◌==◌, if◌then◌else◌, any,
}
use easysync.Text.{Text}
use easysync.Text.Scan.{Unicode}
use easysync.Database.Schema.{User, has_name}
use easysync.Database.Engine.{Engine}
use easysync.DbManager.Quote.{has_quote}
use easysync.Server.Lists.{Run, returns, out_of_range, at, index_of}
use easysync.Server.Messages.{read_line, is_pingpong, get_user_info, id_of}
use easysync.Server.{Server}
use easysync.Marks.{Event, is_over, notifies}

-- What a line tells: the host that it counts for is done, or a valid user's host notifies.
abbrev pub over_events : Run Text → List Event
over_events (returns h) = is_over h ∷ []
over_events out_of_range = []

abbrev pub is_valid : List User → Text → Bool
is_valid users u = any (has_name u) users && not (has_quote u)

abbrev pub notify_events : List User → Option (Text × Text) → List Event
notify_events users none = []
notify_events users (some (u, h)) = if is_valid users u then notifies u h ∷ [] else []

-- Here `who` is the host that message 2 counts for.
module _ (k : Unicode) (users : List User) (who : Run Text) where
  abbrev told_message : Option ℕ → Text → List Event
  told_message none message = []
  told_message (some id) message =
      if id == 1
      then []
      else if id == 2
      then over_events who
      else if id == 3
      then notify_events users (get_user_info k message)
      else []

  abbrev told_line : Text → List Event
  told_line message = if is_pingpong message then [] else told_message (id_of k message) message

  abbrev told_buffer : Option (Text × Text) → List Event
  told_buffer none = []
  told_buffer (some (line, rest)) = told_line line

  abbrev pub told : Bool → Text → List Event
  told disabled buffer = if disabled then [] else told_buffer (read_line buffer)

module _ (e : Engine) (k : Unicode) (users : List User) (socket : ℕ) where
  -- The name at the place of the socket, where readClient looks it up.
  abbrev listed : Server e → Run Text
  listed s = at s.peer_names (index_of s.client_connections socket)

  abbrev pub message_events : Option ℕ → Text → Server e → List Event
  message_events id message s = told_message k users (listed s) id message

  abbrev pub line_events : Text → Server e → List Event
  line_events message s = told_line k users (listed s) message

  abbrev pub buffer_events : Option (Text × Text) → Server e → List Event
  buffer_events o s = told_buffer k users (listed s) o

  abbrev pub read_events : Text → Server e → List Event
  read_events buffer s = told k users (listed s) s.disabled buffer
