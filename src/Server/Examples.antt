-- ===== src/Server/Examples.antt =====
-- The theorems on class EasysyncServer at a concrete server.
use easysync.Prelude.{
  pos, ◌≡◌, ◌↔◌, refl, true, false, [], ◌∷◌, ◌++◌, some, any, All-of-any, ◌==◌, arith, All, subst,
  sym, ap,
}
use easysync.Text.{Text, codes}
use easysync.Text.Format.{arg}
use easysync.Text.Scan.{IsName}
use easysync.Database.Reference.{reference-IsReliable}
use easysync.DbManager.{is_user_valid}
use easysync.DbManager.Execution.{tables_of}
use easysync.DbManager.Users.{is_user_valid_lem, tables-is_user_valid}
use easysync.DbManager.Sync.{HasTables}
use easysync.DbManager.Asked.{clients_to_sync-All}
use easysync.Database.Schema.{exists, host_rows}
use easysync.DbManager.Voiding.{found}
use easysync.Server.Lists.{returns, out_of_range}
use easysync.Server.Messages.{greeting, is_pingpong}
use easysync.Server.Protocol.{get_user_info-greeting}
use easysync.Server.{
  Server, nat_eq, register, read_client, handle_line, client_disconnected, notify_each,
  check_clients_connection,
}
use easysync.Server.Changes.{Change, clients, handle_line-Change}
use easysync.Server.Reading.{IsAligned}
use easysync.Server.Totality.{Returns, InRange, SocketsInRange, handle_line-Returns}
use easysync.Server.Departure.{count, client_disconnected-IsAligned, stale_socket_number}
use easysync.Server.Silence.{
  check_clients_connection_lem, check_clients_connection-midnight, disconnects_from,
}
use easysync.Server.Registration.{IsPlainGreeting, read_client-greeting, handle_line-pingpong_host}
use easysync.Fixtures.{ascii_only, alice, two_tables, engine, server}

abbrev phone : Text
phone = codes "phone"

alice-IsName : IsName ascii_only alice
alice-IsName = (refl, refl)

server-IsAligned : IsAligned (clients engine server)
server-IsAligned = record { names = refl; times = refl }

phone_greeting : IsPlainGreeting ascii_only alice phone
unfolding is_pingpong greeting arg
phone_greeting = record {
  user_name = (refl, refl);
  user_open = All-of-any (λ c. c == b'<') alice refl;
  user_percent = All-of-any (λ c. c == b'%') alice refl;
  user_line = All-of-any (λ c. c == 10) alice refl;
  host_name = (refl, refl);
  host_line = All-of-any (λ c. c == 10) phone refl;
  no_ping = refl;
}

-- Socket 12 greets, and half of its next line is in the buffer already.
read_client-greeting_example :
    read_client engine ascii_only 12 5000 (greeting alice phone ++ codes "ping") server
    ≡ returns (
      codes "ping",
      register engine 12 alice phone 5000
          (record server { db_manager = (is_user_valid engine server.db_manager alice).1 }),
    )
read_client-greeting_example =
    read_client-greeting engine (reference-IsReliable false two_tables) ascii_only server 12 5000
      alice phone (codes "ping") refl (refl, refl, refl) refl refl phone_greeting

-- The server once alice has greeted it from socket 12.
abbrev greeted : Server engine
greeted =
    register engine 12 alice phone 5000
      (record server { db_manager = (is_user_valid engine server.db_manager alice).1 })

greeting_run : handle_line engine ascii_only 12 5000 (greeting alice phone) server ≡ returns greeted
unfolding handle_line
greeting_run =
    let (info, number) =
      get_user_info-greeting ascii_only alice phone phone_greeting.user_name
        phone_greeting.user_open phone_greeting.user_percent phone_greeting.host_name in
    let valid : (is_user_valid engine server.db_manager alice).0 ≡ true =
      is_user_valid_lem engine (reference-IsReliable false two_tables) server.db_manager alice
        (refl, refl) in
    rw (phone_greeting.no_ping, number, info, valid)

handle_line-Change_example : Change engine 12 5000 server greeted
handle_line-Change_example =
    handle_line-Change engine 12 5000 ascii_only (greeting alice phone) server greeted greeting_run

-- Whoever notifies, the table has no other socket numbers than 0 and 1.
server-SocketsInRange : (username hostname : Text) → SocketsInRange engine server username hostname
server-SocketsInRange username hostname =
    let m = (is_user_valid engine server.db_manager username).1 in
    let (same, connected) = tables-is_user_valid engine server.db_manager username in
    let tabs : HasTables engine m =
      (connected, ap (λ t. exists t.users) same, ap (λ t. exists t.hosts) same) in
    clients_to_sync-All engine (reference-IsReliable false two_tables) (InRange 2) m username
      hostname tabs
      (subst (λ t. All (λ r. InRange 2 r.socket_id) (host_rows t)) (sym same)
        (omega arith, (omega arith, tt)))

-- The laptop notifies the desktop.
handle_line-Returns_example : Returns (
    handle_line engine ascii_only 9 5000
      (codes "3. Robin, notify all. <alice> from <laptop>\n")
      server)
handle_line-Returns_example =
    handle_line-Returns engine ascii_only 9 5000 1
      (codes "3. Robin, notify all. <alice> from <laptop>\n") server server-IsAligned refl
      λ username hostname p. server-SocketsInRange username hostname

client_disconnected-IsAligned_example :
    (s' : Server engine) × (client_disconnected engine (some 7) server ≡ returns s')
    × (IsAligned (clients engine s') ↔ (
        (1 ≡ count nat_eq 7 server.client_connections)
        × (count nat_eq 86370000 server.client_last_seen ≡ 1)))
client_disconnected-IsAligned_example =
    client_disconnected-IsAligned engine server 7 0 (codes "desktop") 86370000 refl refl refl
      server-IsAligned

stale_socket_number_example :
    (s' : Server engine) × (client_disconnected engine (some 7) server ≡ returns s')
    × (found (tables_of engine s'.db_manager) (codes "laptop") (pos 1) ≡ true)
    × (notify_each engine (pos 1 ∷ []) s' ≡ out_of_range)
stale_socket_number_example =
    stale_socket_number engine server 7 0 (codes "desktop") 86370000 refl refl refl 1
      (codes "laptop") [] refl refl refl

check_clients_connection_lem_example :
    check_clients_connection engine 86390000 server ≡ returns server
check_clients_connection_lem_example =
    check_clients_connection_lem engine 86390000 server server-IsAligned

check_clients_connection-midnight_example :
    (s' : Server engine) × (check_clients_connection engine 10000 server ≡ returns s')
    × (any (disconnects_from 9) s'.actions ≡ true)
check_clients_connection-midnight_example =
    check_clients_connection-midnight engine 10000 9 86380000 server 1 server-IsAligned refl refl
      (omega arith)

handle_line-pingpong_host_example :
    handle_line engine ascii_only 12 5000 (greeting alice (codes "PingPong-PC")) server
    ≡ returns server
handle_line-pingpong_host_example =
    handle_line-pingpong_host engine ascii_only 12 5000 alice (codes "PingPong-PC") server
      (All-of-any (λ c. c == b'%') alice refl) refl refl
