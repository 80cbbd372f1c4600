-- ===== src/Client/Phases.antt =====
-- What each slot of class Client of client/client.cpp does to the runs of unison.
use easysync.Prelude.{
  ℕ, ◌+◌, ◌≡◌, refl, Bool, true, false, ◌⊎◌, List, [], ◌∷◌, ◌++◌, ◌==◌, arith, if◌then◌else◌,
  Bool-cases, inl, inr, Option, none, some,
}
use easysync.Text.{Text, text_eq}
use easysync.Text.Format.{chop}
use easysync.Text.Scan.{Unicode, bracketed, unwrap}
use easysync.Server.Messages.{read_line, id_of}
use easysync.Client.Watcher.{Folders}
use easysync.Client.State.{
  Client, ActivationReason, trigger, double_click, unknown, context, middle_click, Action, set_icon,
  no_connection_icon, starts,
}
use easysync.Client.{
  start_synchronisation, handle_sync_is_finished, handle_sync_timer, handle_directory_changed,
  handle_socket_connected, handle_socket_disconnected, send_keep_alive, read_from_server,
  connect_to_server, check_server_connection, online_state_changed, handle_save_button,
  select_directory, icon_activated, on_request, on_message, read_buffered, install_watcher,
  stop_watcher, send_greetings, write_settings,
}

-- How often unison was started.
abbrev pub is_start : Action → ℕ
is_start (starts command) = 1
is_start _ = 0

abbrev pub runs : List Action → ℕ
runs [] = 0
runs (a ∷ as_) = is_start a + runs as_

pub runs-append : (xs ys : List Action) → runs (xs ++ ys) ≡ runs xs + runs ys
runs-append [] ys = omega arith
runs-append (x ∷ xs) ys = omega (arith, runs-append xs ys)

-- What the sockets, the timers, the network and the user cause, each with the folders on disk.
pub data Signal : Type 0 where
  directory_changed sync_timer keep_alive : Signal
  ready_read : Unicode → Text → Signal
  connected saved : Signal
  disconnected online_changed : Bool → Signal
  connect_timer : Signal
  check_timer : (is_online is_connected : Bool) → Signal
  selected : Text → Signal
  activated : ActivationReason → Signal

abbrev pub handle : Signal → Folders → Client → Client
handle directory_changed disk c = handle_directory_changed c
handle sync_timer disk c = handle_sync_timer disk c
handle keep_alive disk c = send_keep_alive c
handle (ready_read u buffer) disk c = (read_from_server u disk buffer c).1
handle connected disk c = handle_socket_connected disk c
handle saved disk c = handle_save_button disk c
handle (disconnected is_online) disk c = handle_socket_disconnected disk is_online c
handle (online_changed is_online) disk c = online_state_changed disk is_online c
handle connect_timer disk c = connect_to_server c
handle (check_timer is_online is_connected) disk c =
    check_server_connection is_online is_connected c
handle (selected dir) disk c = select_directory dir c
handle (activated reason) disk c = icon_activated reason c

abbrev pub one_if : Bool → ℕ
one_if true = 1
one_if false = 0

-- The parts of the state that decide when unison runs.
pub record Phase : Type 0 where
  pub count : ℕ
  pub busy : Bool
  pub again : Bool

abbrev pub phase : Client → Phase
phase c = record { count = runs c.actions; busy = c.sync_in_progress; again = c.need_to_sync }

abbrev pub start_phase : Phase → Phase
start_phase p =
    if p.busy then record p { again = true } else record p { count = p.count + 1; busy = true }

module _ (disk : Folders) where
  phase-install_watcher : (c : Client) → phase (install_watcher disk c) ≡ phase c
  unfolding install_watcher
  phase-install_watcher c = ground arith

  phase-stop_watcher : (c : Client) → phase (stop_watcher disk c) ≡ phase c
  unfolding stop_watcher
  phase-stop_watcher c = ground arith

  pub phase-start_synchronisation :
      (b : Bool) (c : Client) → phase (start_synchronisation disk b c) ≡ start_phase (phase c)
  unfolding start_synchronisation stop_watcher
  phase-start_synchronisation b c = grind (arith, runs-append)

  phase-connect_to_server : (c : Client) → phase (connect_to_server c) ≡ phase c
  unfolding connect_to_server
  phase-connect_to_server c = grind (arith, runs-append)

  phase-handle_socket_connected : (c : Client) → phase (handle_socket_connected disk c) ≡ phase c
  unfolding handle_socket_connected send_greetings install_watcher
  phase-handle_socket_connected c = grind (arith, runs-append)

  phase-handle_socket_disconnected :
      (b : Bool) (c : Client) → phase (handle_socket_disconnected disk b c) ≡ phase c
  unfolding handle_socket_disconnected stop_watcher
  phase-handle_socket_disconnected b c = grind (arith, runs-append)

  phase-online_state_changed :
      (b : Bool) (c : Client) → phase (online_state_changed disk b c) ≡ phase c
  unfolding online_state_changed
  phase-online_state_changed true c = phase-connect_to_server c
  phase-online_state_changed false c = phase-stop_watcher (set_icon no_connection_icon c)

  phase-handle_save_button : (c : Client) → phase (handle_save_button disk c) ≡ phase c
  unfolding handle_save_button write_settings install_watcher stop_watcher connect_to_server
  phase-handle_save_button c = grind (arith, runs-append)

  phase-send_keep_alive : (c : Client) → phase (send_keep_alive c) ≡ phase c
  unfolding send_keep_alive
  phase-send_keep_alive c = grind (arith, runs-append)

  phase-handle_directory_changed : (c : Client) → phase (handle_directory_changed c) ≡ phase c
  unfolding handle_directory_changed
  phase-handle_directory_changed c = ground arith

  phase-check_server_connection :
      (a b : Bool) (c : Client) → phase (check_server_connection a b c) ≡ phase c
  unfolding check_server_connection
  phase-check_server_connection a b c = grind (arith, runs-append)

  phase-select_directory : (dir : Text) (c : Client) → phase (select_directory dir c) ≡ phase c
  unfolding select_directory
  phase-select_directory dir c = ground arith

  phase-icon_activated : (r : ActivationReason) (c : Client) → phase (icon_activated r c) ≡ phase c
  unfolding icon_activated
  phase-icon_activated trigger c = grind (arith, runs-append)
  phase-icon_activated double_click c = grind (arith, runs-append)
  phase-icon_activated unknown c = refl
  phase-icon_activated context c = refl
  phase-icon_activated middle_click c = refl

  -- A signal leaves the phase alone or asks for a synchronisation.
  abbrev pub Moves : Client → Client → Type 0
  Moves c c' = (phase c' ≡ phase c) ⊎ (phase c' ≡ start_phase (phase c))

  on_request-Moves : (o : Option (Text × Text)) (c : Client) → Moves c (on_request disk o c)
  on_request-Moves none c = inl (grind (arith, runs-append))
  on_request-Moves (some (cap, rest)) c = elim (Bool-cases (text_eq (unwrap cap) c.hostname)) [
    | inl p ↦ rw p (inr (phase-start_synchronisation false c))
    | inr p ↦ rw p (inl (grind (arith, runs-append)))
  ]

  on_message-Moves :
      (u : Unicode) (id : Option ℕ) (message : Text) (c : Client)
      → Moves c (on_message u disk id message c)
  on_message-Moves u none message c = inl (grind (arith, runs-append))
  on_message-Moves u (some id) message c = elim (Bool-cases (id == 2)) [
    | inl p ↦ rw p (on_request-Moves (bracketed u message) c)
    | inr p ↦ rw p (inl refl)
  ]

  read_buffered-Moves :
      (u : Unicode) (o : Option (Text × Text)) (buffer : Text) (c : Client)
      → Moves c (read_buffered u disk o buffer c).1
  read_buffered-Moves u none buffer c = inl refl
  read_buffered-Moves u (some (line, rest)) buffer c =
      on_message-Moves u (id_of u (chop line 1)) (chop line 1) c

  pub handle-Moves : (s : Signal) (c : Client) → Moves c (handle s disk c)
  unfolding handle_sync_timer read_from_server
  handle-Moves directory_changed c = inl (phase-handle_directory_changed c)
  handle-Moves sync_timer c =
      inr (phase-start_synchronisation true (record c { sync_timer_active = false }))
  handle-Moves keep_alive c = inl (phase-send_keep_alive c)
  handle-Moves (ready_read u buffer) c = read_buffered-Moves u (read_line buffer) buffer c
  handle-Moves connected c = inl (phase-handle_socket_connected c)
  handle-Moves saved c = inl (phase-handle_save_button c)
  handle-Moves (disconnected b) c = inl (phase-handle_socket_disconnected b c)
  handle-Moves (online_changed b) c = inl (phase-online_state_changed b c)
  handle-Moves connect_timer c = inl (phase-connect_to_server c)
  handle-Moves (check_timer a b) c = inl (phase-check_server_connection a b c)
  handle-Moves (activated reason) c = inl (phase-icon_activated reason c)
  handle-Moves (selected dir) c = inl (phase-select_directory dir c)

  pub phase-handle_sync_is_finished :
      (c : Client)
      → phase (handle_sync_is_finished disk c) ≡ (
          if c.need_to_sync
          then record { count = runs c.actions + 1; busy = true; again = false }
          else record { count = runs c.actions; busy = false; again = false })
  unfolding handle_sync_is_finished install_watcher start_synchronisation stop_watcher
  phase-handle_sync_is_finished c = grind (arith, runs-append)
