-- ===== src/Client/Connecting.antt =====
-- The slots of client/client.cpp for the connection, its timers, the network and the icon, and the folders
-- that are watched meanwhile.
use easysync.Prelude.{Bool, true, false, not, ◌&&◌, if◌then◌else◌}
use easysync.Text.{is_empty}
use easysync.Server.Messages.{greeting, pingpong}
use easysync.Client.State.{
  connect_to_server_slot, check_server_connection_slot, writes, connects, single_shot, aborts,
  disconnects, shows, no_connection_icon, connected_icon, Client, emit, set_icon, ActivationReason,
  trigger, double_click,
}
use easysync.Client.Watcher.{Folders, sub_folders, add_paths, remove_paths}

-- Client::iconActivated
unfoldable pub icon_activated : ActivationReason → Client → Client
icon_activated trigger c = emit shows c
icon_activated double_click c = emit shows c
icon_activated _ c = c

-- Client::~Client
unfoldable pub delete_client : Client → Client
delete_client c = emit disconnects c

-- Client::installWatcher and stopWatcher, on a system other than Windows.
unfoldable pub install_watcher : Folders → Client → Client
install_watcher disk c =
    if is_empty c.sync_dir
    then c
    else record c { watched = add_paths c.watched (sub_folders c.sync_dir disk) }

unfoldable pub stop_watcher : Folders → Client → Client
stop_watcher disk c =
    if is_empty c.sync_dir
    then c
    else record c { watched = remove_paths c.watched (sub_folders c.sync_dir disk) }

-- Client::connectToServer
unfoldable pub connect_to_server : Client → Client
connect_to_server c =
    let c' = if c.socket_ready then emit disconnects (emit aborts c) else c in
    emit (single_shot 2000 check_server_connection_slot)
      (emit (connects c.ui.server_address_edit c.ui.port_edit) c')

-- Client::checkServerConnection
unfoldable pub check_server_connection : (is_online is_connected : Bool) → Client → Client
check_server_connection is_online is_connected c =
    if not c.socket_ready && is_online && not is_connected
    then emit (single_shot 5000 connect_to_server_slot) c
    else c

-- Client::sendGreetings
unfoldable pub send_greetings : Client → Client
send_greetings c =
    if not c.socket_ready then c else emit (writes (greeting c.username c.hostname)) c

-- Client::handleSocketConnected
unfoldable pub handle_socket_connected : Folders → Client → Client
unfolding install_watcher send_greetings
handle_socket_connected disk c =
    let c' = record (set_icon connected_icon c) { socket_ready = true } in
    record (send_greetings (install_watcher disk c')) { keep_alive_active = true }

-- Client::handleSocketDisconnected
unfoldable pub handle_socket_disconnected : Folders → Bool → Client → Client
unfolding stop_watcher
handle_socket_disconnected disk is_online c =
    let c' = set_icon no_connection_icon (record c { keep_alive_active = false }) in
    let c'' = stop_watcher disk (record c' { socket_ready = false }) in
    if is_online then emit (single_shot 2000 connect_to_server_slot) c'' else c''

-- Client::sendKeepAlive
unfoldable pub send_keep_alive : Client → Client
send_keep_alive c = if c.socket_ready then emit (writes pingpong) c else c

-- Client::onlineStateChanged
unfoldable pub online_state_changed : Folders → Bool → Client → Client
unfolding stop_watcher connect_to_server
online_state_changed disk is_online c =
    if not is_online then stop_watcher disk (set_icon no_connection_icon c) else connect_to_server c
