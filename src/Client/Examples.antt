-- ===== src/Client/Examples.antt =====
-- The theorems on class Client at a concrete client.
use easysync.Prelude.{◌≡◌, ◌⊎◌, ◌↔◌, refl, true, false, not, ◌&&◌}
use easysync.Text.{codes}
use easysync.Client.Watcher.{is_in, sub_folders}
use easysync.Client.State.{Client, Settings}
use easysync.Client.{
  start_synchronisation, handle_sync_is_finished, handle_socket_connected, write_settings,
  check_settings, connect_to_server, handle_sync_timer, handle_directory_changed, construct,
  check_server_connection,
}
use easysync.Client.Phases.{
  sync_timer, directory_changed, runs, handle, phase, connect_timer, check_timer,
}
use easysync.Client.Progress.{
  meets_signal, asked, Reaches, begin, then_signal, then_finish, Balanced, Reaches-Balanced,
  handle_sync_is_finished-start_synchronisation,
}
use easysync.Client.Reconnect
use easysync.Client.Reconnect.{is_trying, then_retry, then_check, Reaches-is_trying}
use easysync.Client.Retries.{link}
use easysync.Client.Watching.{
  Below, sub_folders_lem, start_synchronisation-watched, handle_socket_connected-watched,
}
use easysync.Client.Requests.{check_settings-write_settings}
use easysync.Fixtures.{alice, desktop, form, client, disk}

abbrev busy_client : Client
busy_client = record client { sync_in_progress = true }

-- A change, a run, another change meanwhile, and the end of the run.
abbrev timed : Client
timed = handle sync_timer disk (handle directory_changed disk client)

abbrev again : Client
again = handle sync_timer disk timed

again_run : Reaches client 1 (handle_sync_is_finished disk again)
unfolding handle_sync_timer start_synchronisation handle_directory_changed
again_run = then_finish {n = 0} disk refl (
    then_signal sync_timer disk
      (then_signal sync_timer disk (then_signal directory_changed disk begin)))

Reaches-Balanced_example : Balanced 1 (phase (handle_sync_is_finished disk again))
Reaches-Balanced_example =
    Reaches-Balanced client 1 (handle_sync_is_finished disk again) refl refl refl again_run

-- A client of alice starts without an answer of the server, and tries again after a check.
abbrev stored : Settings
stored = record {
  account_username = alice;
  account_hostname = desktop;
  settings_address = codes "box";
  settings_port = codes "9090";
  settings_syncdir = codes "/a";
  settings_profile = codes "work";
}

abbrev started : Client
started = construct form stored desktop

abbrev unanswered : Client
unanswered = handle (check_timer true false) disk started

Reaches-is_trying_example : is_trying 1 1 true (link (handle connect_timer disk unanswered)) ≡ true
unfolding construct check_settings connect_to_server check_server_connection
Reaches-is_trying_example =
    Reaches-is_trying form stored desktop true 1 1 true (handle connect_timer disk unanswered) refl
      (then_retry {a = 0} disk refl (then_check {b = 0} disk false refl refl Reconnect.begin))

-- The server asks while a run is in progress, and a change and the timer come before its end.
abbrev meanwhile : Client
meanwhile =
    handle sync_timer disk
      (handle directory_changed disk (start_synchronisation disk false busy_client))

handle_sync_is_finished-start_synchronisation_example :
    let c' = handle_sync_is_finished disk meanwhile in
    (runs c'.actions ≡ 1)
    × (c'.sync_in_progress ≡ true)
    × (c'.need_to_sync ≡ false)
    × (c'.notify_all_after_sync ≡ true)
handle_sync_is_finished-start_synchronisation_example =
    handle_sync_is_finished-start_synchronisation disk disk false busy_client meanwhile refl
      (meets_signal sync_timer disk (meets_signal directory_changed disk asked))

sub_folders_lem_example :
    (is_in (codes "/a/b") (sub_folders (codes "/a") disk) ≡ true)
    ↔ ((codes "/a/b" ≡ codes "/a") ⊎ Below (codes "/a/b") (codes "/a") disk)
sub_folders_lem_example = sub_folders_lem (codes "/a/b") (codes "/a") disk

start_synchronisation-watched_example :
    is_in (codes "/a/b") (start_synchronisation disk true client).watched
    ≡ (true && not (is_in (codes "/a/b") (sub_folders (codes "/a") disk)))
start_synchronisation-watched_example =
    start_synchronisation-watched disk client (codes "/a/b") refl true refl

handle_socket_connected-watched_example :
    ((handle_socket_connected disk busy_client).sync_in_progress ≡ true)
    × (is_in (codes "/a/b") (handle_socket_connected disk busy_client).watched ≡ true)
handle_socket_connected-watched_example =
    handle_socket_connected-watched disk busy_client (codes "/a/b") refl

check_settings-write_settings_example :
    let c' = write_settings client in
    let d' = check_settings (codes "pc") (record busy_client { settings = c'.settings }) in
    (d'.username ≡ c'.username)
    × (d'.hostname ≡ c'.hostname)
    × (d'.sync_dir ≡ c'.sync_dir)
    × (d'.server_address ≡ c'.server_address)
    × (d'.port ≡ c'.port)
    × (d'.ui ≡ form)
    × (d'.actions ≡ (connect_to_server busy_client).actions)
check_settings-write_settings_example =
    check_settings-write_settings (codes "pc") client busy_client refl
