-- ===== src/Marks/Examples.antt =====
-- The theorem on the marks at a concrete history: the desktop notifies, and then the server pauses.
use easysync.Prelude.{
  ◌≡◌, refl, false, [], ◌∷◌, ◌==◌, some, All, All-of-any, subst, List, ℕ, true, ◌++◌, arith,
}
use easysync.Text.{Text}
use easysync.Text.Format.{arg, NoPercent}
use easysync.Database.Reference.{reference-IsReliable}
use easysync.DbManager.{is_sync_needed}
use easysync.DbManager.Quote.{sql_quote}
use easysync.Server.{Server, read_client, handle_line, pause, resume}
use easysync.Server.Lists.{returns, at, index_of}
use easysync.Server.Messages.{read_line, is_pingpong, get_user_info, id_of, notification}
use easysync.Server.Protocol.{get_user_info-notification}
use easysync.Exchange.Notify.{notification_round}
use easysync.Exchange.Examples.{
  desktop_notification, server-Owns, laptop, wire, wire-KeepsAscii, alice-IsAscii, laptop-IsAscii,
  laptop_client, laptop_greeting,
}
use easysync.Exchange.{sent, written, begun}
use easysync.Client.{send_greetings, read_from_server}
use easysync.Marks.Delivery.{greeting_round-Traced}
use easysync.Marks.{notifies}
use easysync.Marks.Events.{told}
use easysync.Marks.Registry.{Member, Agrees, host_at, joins}
use easysync.Marks.Traced.{
  Traced, started, then_read, then_paused, then_resumed, is_sync_needed-Traced,
}
use easysync.Fixtures.{ascii_only, alice, bob, desktop, two_tables, two_users, engine, server, disk}

-- The message of the desktop.
abbrev message : Text
message = notification alice desktop

message-get_user_info :
    (get_user_info ascii_only message ≡ some (alice, desktop)) × (id_of ascii_only message ≡ some 3)
message-get_user_info =
    get_user_info-notification ascii_only alice desktop (refl, refl)
      (All-of-any (λ c. c == b'<') alice refl) (All-of-any (λ c. c == b'%') alice refl) (refl, refl)

message-read_line : read_line message ≡ some (message, [])
unfolding read_line notification arg
message-read_line = refl

message-is_pingpong : is_pingpong message ≡ false
unfolding is_pingpong notification arg
message-is_pingpong = refl

-- The laptop is asked, so the handler returns.
run : (s : Server engine) × (handle_line engine ascii_only 7 5000 message server ≡ returns s)
unfolding sql_quote
run =
    let r =
      notification_round wire engine (reference-IsReliable false two_tables) ascii_only server 7
        5000 9 1 alice desktop disk laptop_client (refl, refl, refl) refl refl desktop_notification
        (record { names = refl; times = refl }) (omega arith, (omega arith, tt)) server-Owns refl
        refl wire-KeepsAscii (refl, refl) (All-of-any (λ c. c == 10) laptop refl) laptop-IsAscii
        refl in
    (r.0, r.1)

message_read : read_client engine ascii_only 7 5000 message server ≡ returns ([], run.0)
unfolding read_client
message_read = rw (message-read_line, run.1)

-- The two clients, as they have registered.
abbrev members : List Member
members = record { socket = 7; host = desktop } ∷ record { socket = 9; host = laptop } ∷ []

members-Agrees : Agrees engine members server
members-Agrees = record { connections = refl; names = refl }

message-told :
    told ascii_only two_users (host_at 7 members) false message ≡ notifies alice desktop ∷ []
message-told =
    rw (message-read_line, message-is_pingpong, message-get_user_info.1, message-get_user_info.0)

message-joins : joins engine ascii_only 7 server message ≡ []
message-joins = rw (message-read_line, message-is_pingpong, message-get_user_info.1) refl

-- The server is paused and resumed behind that.
abbrev after : Server engine
after = resume engine (pause engine run.0)

history : Traced engine ascii_only server members members (notifies alice desktop ∷ []) after
history =
    let read : Traced engine ascii_only server members
        (members ++ joins engine ascii_only 7 server message)
        (told ascii_only two_users (host_at 7 members) false message) run.0 =
      then_read 7 5000 message [] started message_read in
    let joined : Traced engine ascii_only server members members
        (told ascii_only two_users (host_at 7 members) false message) run.0 =
      subst
        (λ more.
          Traced engine ascii_only server members (members ++ more)
            (told ascii_only two_users (host_at 7 members) false message) run.0)
        message-joins read in
    let notified : Traced engine ascii_only server members members (notifies alice desktop ∷ [])
        run.0 =
      subst (λ events. Traced engine ascii_only server members members events run.0) message-told
        joined in
    then_resumed (then_paused notified)

no_percent : All (λ r. NoPercent r.username) two_users
no_percent = (All-of-any (λ c. c == b'%') alice refl, (All-of-any (λ c. c == b'%') bob refl, tt))

is_sync_needed-Traced_example :
    ((is_sync_needed engine after.db_manager laptop).0 ≡ true)
    × ((socket : ℕ)
        → at after.peer_names (index_of after.client_connections socket) ≡ host_at socket members)
unfolding sql_quote
is_sync_needed-Traced_example =
    is_sync_needed-Traced engine (reference-IsReliable false two_tables) ascii_only server after
      members members (notifies alice desktop ∷ []) 1 laptop (refl, refl, refl) refl no_percent refl
      members-Agrees history

-- The laptop comes back as socket 12, and is asked to synchronise.
greeting_round-Traced_example :
    (s' : Server engine) × (read_client engine ascii_only 12 6000
        (sent wire (send_greetings laptop_client).actions)
        after
      ≡ returns ([], s'))
    × (answer : Text) × (written wire 12 s'.actions ≡ written wire 12 after.actions ++ answer)
    × (read_from_server ascii_only disk answer (send_greetings laptop_client)
        ≡ ([], begun disk (send_greetings laptop_client)))
unfolding sql_quote resume
greeting_round-Traced_example =
    greeting_round-Traced engine (reference-IsReliable false two_tables) ascii_only server after
      members members (notifies alice desktop ∷ []) 1 laptop_client 12 6000 disk (refl, refl, refl)
      refl no_percent refl refl refl laptop_greeting members-Agrees history refl refl refl refl wire
      wire-KeepsAscii alice-IsAscii laptop-IsAscii
