-- ===== src/Client.antt =====
-- client/client.cpp: class Client. A slot takes the client and returns it as the slot leaves it. What
-- goes out to the socket, the process, the timers and the screen is the list `actions`; what a slot
-- asks of its surroundings (the folders on disk, whether the network is up) is an argument. A signal
-- that an action causes is a step of its own.
pub mod Connecting
pub mod State
pub mod Watcher
pub mod Phases
pub mod Progress
pub mod Retries
pub mod Reconnect
pub mod Watching
pub mod Requests
pub mod Examples
use easysync.Prelude.{
  ℕ, Bool, true, false, not, ◌&&◌, Option, none, some, List, [], ◌∷◌, ◌++◌, ◌==◌, if◌then◌else◌,
}
use easysync.Text.{Text, text_eq, is_empty, codes}
use easysync.Text.Format.{arg, chop}
use easysync.Text.Scan.{Unicode, bracketed, unwrap}
use easysync.Server.Messages.{read_line, id_of, greeting, notification, roger, pingpong}
use State.{
  connect_to_server_slot, check_server_connection_slot, writes, starts, warns, connects,
  single_shot, aborts, disconnects, shows, closes, sync_in_progress_icon, no_connection_icon,
  connected_icon, Settings, Form, Client, emit, set_icon, ActivationReason, trigger, double_click,
}
use Watcher.{Folders, sub_folders, add_paths, remove_paths}
unfoldable pub use Connecting.{
  icon_activated, delete_client, install_watcher, stop_watcher, connect_to_server,
  check_server_connection, send_greetings, handle_socket_connected, handle_socket_disconnected,
  send_keep_alive, online_state_changed,
}

-- Client::startSynchronisation
unfoldable pub start_synchronisation : Folders → Bool → Client → Client
unfolding stop_watcher
start_synchronisation disk notify_all c =
    if c.sync_in_progress
    then record c { need_to_sync = true }
    else let c' = record c { sync_in_progress = true; notify_all_after_sync = notify_all } in
      emit (starts (arg (codes "unison %1") c.ui.unison_profile_edit))
        (stop_watcher disk (set_icon sync_in_progress_icon c'))

-- The message that ends a synchronisation.
abbrev pub report : Client → Client
report c =
    if c.socket_ready
    then emit
        (writes (if c.notify_all_after_sync then notification c.username c.hostname else roger)) c
    else c

-- Client::handleSyncIsFinished
unfoldable pub handle_sync_is_finished : Folders → Client → Client
unfolding install_watcher start_synchronisation
handle_sync_is_finished disk c =
    let c' = report (install_watcher disk (set_icon connected_icon c)) in
    let c'' = record c' { sync_in_progress = false } in
    if c''.need_to_sync
    then start_synchronisation disk true (record c'' { need_to_sync = false })
    else c''

-- Client::handleSyncTimer; the timer has run out.
unfoldable pub handle_sync_timer : Folders → Client → Client
unfolding start_synchronisation
handle_sync_timer disk c = start_synchronisation disk true (record c { sync_timer_active = false })

-- Client::handleDirectoryChanged
unfoldable pub handle_directory_changed : Client → Client
handle_directory_changed c =
    if not c.sync_timer_active then record c { sync_timer_active = true } else c

-- The case of readFromServer for message 2.
abbrev pub on_request : Folders → Option (Text × Text) → Client → Client
on_request disk none c = emit disconnects c
on_request disk (some (cap, rest)) c =
    if not (text_eq (unwrap cap) c.hostname)
    then emit disconnects c
    else start_synchronisation disk false c

abbrev pub on_message : Unicode → Folders → Option ℕ → Text → Client → Client
on_message u disk none message c = emit disconnects c
on_message u disk (some id) message c =
    if id == 2 then on_request disk (bracketed u message) c else c

abbrev pub read_buffered : Unicode → Folders → Option (Text × Text) → Text → Client → Text × Client
read_buffered u disk none buffer c = (buffer, c)
read_buffered u disk (some (line, rest)) buffer c =
    let message = chop line 1 in (rest, on_message u disk (id_of u message) message c)

-- Client::readFromServer
unfoldable pub read_from_server : Unicode → Folders → Text → Client → Text × Client
unfolding start_synchronisation
read_from_server u disk buffer c = read_buffered u disk (read_line buffer) buffer c

-- Client::writeSettings
unfoldable pub write_settings : Client → Client
write_settings c = record c {
  settings = record {
    account_username = c.ui.username_edit;
    account_hostname = c.ui.hostname_edit;
    settings_address = c.ui.server_address_edit;
    settings_port = c.ui.port_edit;
    settings_syncdir = c.ui.syncdir_edit;
    settings_profile = c.ui.unison_profile_edit;
  };
  username = c.ui.username_edit;
  hostname = c.ui.hostname_edit;
  server_address = c.ui.server_address_edit;
  port = c.ui.port_edit;
  sync_dir = c.ui.syncdir_edit;
}

-- Client::checkSettings
unfoldable pub check_settings : Text → Client → Client
unfolding connect_to_server
check_settings local_host_name c =
    let s = c.settings in
    if is_empty s.account_username
    then emit shows (record c { ui = record c.ui { hostname_edit = local_host_name } })
    else connect_to_server (record c {
      username = s.account_username;
      hostname = s.account_hostname;
      server_address = s.settings_address;
      sync_dir = s.settings_syncdir;
      port = s.settings_port;
      ui = record {
        username_edit = s.account_username;
        hostname_edit = s.account_hostname;
        server_address_edit = s.settings_address;
        port_edit = s.settings_port;
        syncdir_edit = s.settings_syncdir;
        unison_profile_edit = s.settings_profile;
      };
    })

-- Client::Client, over the texts of a fresh form; the wiring of signals and the tray are left out.
unfoldable pub construct : Form → Settings → Text → Client
unfolding check_settings
construct form stored local_host_name = check_settings local_host_name (record {
  ui = form;
  settings = stored;
  username = [];
  hostname = [];
  sync_dir = [];
  server_address = [];
  port = [];
  notify_all_after_sync = false;
  sync_in_progress = false;
  need_to_sync = false;
  socket_ready = false;
  watched = [];
  sync_timer_active = false;
  keep_alive_active = false;
  keep_alive_interval = 60000;
  icon = no_connection_icon;
  actions = [];
})

-- Client::handleSaveButton
unfoldable pub handle_save_button : Folders → Client → Client
unfolding stop_watcher write_settings connect_to_server install_watcher
handle_save_button disk c =
    if is_empty c.ui.username_edit
    then emit (warns (codes "You should enter the username.")) c
    else if is_empty c.ui.server_address_edit
    then emit (warns (codes "You should enter the server address.")) c
    else if is_empty c.ui.syncdir_edit
    then emit (warns (codes "You should specify the directory for the synchronisation.")) c
    else if is_empty c.ui.unison_profile_edit
    then emit (warns (codes "You should specify the unison profile.")) c
    else let c' = write_settings (stop_watcher disk c) in
      emit closes (if not c'.socket_ready then connect_to_server c' else install_watcher disk c')

-- Client::selectDirectory, with the directory that the dialog returns.
unfoldable pub select_directory : Text → Client → Client
select_directory dir c =
    if not (is_empty dir) then record c { ui = record c.ui { syncdir_edit = dir } } else c
