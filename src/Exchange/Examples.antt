-- ===== src/Exchange/Examples.antt =====
-- The theorems on the exchange at concrete clients and servers.
use easysync.Prelude.{
  some, ◌∷◌, ◌<◌, ◌^◌, zero, suc, arith, ◌≡◌, refl, false, [], ◌++◌, ◌==◌, All-of-any,
  if◌then◌else◌, ◌+◌, ◌/◌, ◌%◌,
}
use easysync.Text.{Text, codes}
use easysync.Text.Format.{arg}
use easysync.Database.Reference.{reference-IsReliable}
use easysync.DbManager.{DbManager, is_sync_needed}
use easysync.Server.{Server, read_client, handle_line, handle_message}
use easysync.Server.Lists.{returns, ◌>>=◌}
use easysync.Server.Messages.{is_pingpong, greeting, notification}
use easysync.Server.Registration.{IsPlainGreeting}
use easysync.Client.State.{Client}
use easysync.Client.{send_greetings, read_from_server, handle_sync_is_finished, on_message}
use easysync.Text.Wire.{Wire, IsAscii, KeepsAscii, beyond_ascii}
use easysync.Exchange.{sent, written, begun}
use easysync.Exchange.Greeting.{registered, is_due, greeting_round}
use easysync.Exchange.Over.{over_round}
use easysync.Exchange.Requests.{Owns}
use easysync.Exchange.Numbers.{numbered_line}
use easysync.Exchange.Notify.{IsPlainNotification, notification_round}
use easysync.DbManager.Quote.{sql_quote}
use easysync.Fixtures.{
  ascii_only, alice, two_tables, engine, server, due_manager, desktop, client, disk,
}

abbrev pub laptop : Text
laptop = codes "laptop"

-- UTF-8 of a character below 2048, each byte taken for a character; and a codec that knows ASCII only.
abbrev utf8_byte_wise : Text → Text
utf8_byte_wise [] = []
utf8_byte_wise (c ∷ t) =
    (if beyond_ascii c then (192 + c / 64) ∷ (128 + c % 64) ∷ [] else c ∷ []) ++ utf8_byte_wise t

abbrev question_marks : Text → Text
question_marks [] = []
question_marks (c ∷ t) = (if beyond_ascii c then b'?' else c) ∷ question_marks t

abbrev pub wire : Wire
wire = record { to_server = utf8_byte_wise; to_client = question_marks }

utf8_byte_wise-ascii : (t : Text) → IsAscii t → utf8_byte_wise t ≡ t
utf8_byte_wise-ascii [] h = refl
utf8_byte_wise-ascii (c ∷ t) h = rw (h.0, utf8_byte_wise-ascii t h.1) refl

question_marks-ascii : (t : Text) → IsAscii t → question_marks t ≡ t
question_marks-ascii [] h = refl
question_marks-ascii (c ∷ t) h = rw (h.0, question_marks-ascii t h.1) refl

pub wire-KeepsAscii : KeepsAscii wire
wire-KeepsAscii = record { server_gets = utf8_byte_wise-ascii; client_gets = question_marks-ascii }

pub alice-IsAscii : IsAscii alice
alice-IsAscii = All-of-any beyond_ascii alice refl

pub laptop-IsAscii : IsAscii laptop
laptop-IsAscii = All-of-any beyond_ascii laptop refl

-- The laptop has to synchronise; it has no connection yet.
abbrev due_server : Server engine
due_server = record server { db_manager = due_manager }

abbrev pub laptop_client : Client
laptop_client = record client { hostname = laptop }

pub laptop_greeting : IsPlainGreeting ascii_only alice laptop
unfolding is_pingpong greeting arg
laptop_greeting = record {
  user_name = (refl, refl);
  user_open = All-of-any (λ c. c == b'<') alice refl;
  user_percent = All-of-any (λ c. c == b'%') alice refl;
  user_line = All-of-any (λ c. c == 10) alice refl;
  host_name = (refl, refl);
  host_line = All-of-any (λ c. c == 10) laptop refl;
  no_ping = refl;
}

greeting_round_example :
    let s' = registered engine due_server 12 5000 laptop_client in
    (read_client engine ascii_only 12 5000
        (sent wire (send_greetings laptop_client).actions)
        due_server
      ≡ returns ([], s'))
    × (answer : Text) × (written wire 12 s'.actions ≡ written wire 12 due_server.actions ++ answer)
    × (read_from_server ascii_only disk answer (send_greetings laptop_client) ≡ (
      [],
      if is_due engine due_server laptop_client
          then begun disk (send_greetings laptop_client)
          else send_greetings laptop_client,
    ))
greeting_round_example =
    greeting_round engine (reference-IsReliable false two_tables) ascii_only due_server 12 5000 disk
      laptop_client refl (refl, refl, refl) refl refl laptop_greeting refl refl refl wire
      wire-KeepsAscii alice-IsAscii laptop-IsAscii

-- The desktop has done what the server has asked it to.
over_round_example :
    (message : Text) × (sent wire (handle_sync_is_finished disk client).actions ≡ [] ++ message)
    × (m : DbManager engine) × (read_client engine ascii_only 7 5000 message server
        ≡ returns ([], record server { db_manager = m }))
    × ((is_sync_needed engine m desktop).0 ≡ false)
over_round_example =
    over_round engine (reference-IsReliable false two_tables) ascii_only server 7 5000 disk client
      refl (refl, refl, refl) refl refl refl refl wire wire-KeepsAscii

pub desktop_notification : IsPlainNotification ascii_only alice desktop
unfolding is_pingpong notification arg
desktop_notification = record {
  user_name = (refl, refl);
  user_open = All-of-any (λ c. c == b'<') alice refl;
  user_percent = All-of-any (λ c. c == b'%') alice refl;
  host_name = (refl, refl);
  no_ping = refl;
}

pub server-Owns : Owns wire engine 9 1 laptop server
server-Owns zero p = ground arith
server-Owns (suc zero) p = refl
server-Owns (suc (suc j)) p = cc

-- The desktop notifies all, and the laptop is asked to synchronise.
notification_round_example :
    (s' : Server engine) × (handle_line engine ascii_only 7 5000 (notification alice desktop) server
      ≡ returns s')
    × (answer : Text) × (written wire 9 s'.actions ≡ [] ++ answer)
    × (more : Text) × (read_from_server ascii_only disk answer laptop_client
        ≡ (more, begun disk laptop_client))
unfolding sql_quote
notification_round_example =
    notification_round wire engine (reference-IsReliable false two_tables) ascii_only server 7 5000
      9 1 alice desktop disk laptop_client (refl, refl, refl) refl refl desktop_notification
      (record { names = refl; times = refl }) (omega arith, (omega arith, tt)) server-Owns refl refl
      wire-KeepsAscii (refl, refl) (All-of-any (λ c. c == 10) laptop refl) laptop-IsAscii refl

-- 65537 counts as 1, a line without names is refused.
numbered_line_example :
    (1 < 2 ^ 16)
    × (read_client engine ascii_only 9 5000 (codes "65537.\nmore") server ≡ (
        handle_message engine ascii_only (some 1) 9 5000 (codes "65537.\n") server >>= λ s'.
        returns (codes "more", s')))
    × (read_from_server ascii_only disk (codes "65537.\nmore") client
        ≡ (codes "more", on_message ascii_only disk (some 1) (codes "65537.") client))
unfolding is_pingpong
numbered_line_example =
    numbered_line ascii_only 6 (5 ∷ 5 ∷ 3 ∷ 7 ∷ []) b'.' []
      (refl, (refl, (refl, (refl, (refl, tt))))) refl (refl, tt) engine 9 5000 (codes "more") server
      disk client refl refl
