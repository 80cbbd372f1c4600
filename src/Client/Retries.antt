-- ===== src/Client/Retries.antt =====
-- What each slot of class Client of client/client.cpp does to the timers by which it gets its connection
-- back.
use easysync.Prelude.{
  ℕ, ◌+◌, ◌≡◌, ◌⊎◌, refl, Bool, true, false, not, ◌&&◌, List, [], ◌∷◌, ◌++◌, ◌==◌, arith,
  if◌then◌else◌, Bool-cases, inl, inr, Option, none, some, if_intro,
}
use easysync.Text.{Text, text_eq, is_empty}
use easysync.Text.Format.{chop}
use easysync.Text.Scan.{Unicode, bracketed, unwrap}
use easysync.Server.Messages.{id_of}
use easysync.Client.Watcher.{Folders}
use easysync.Client.State.{
  Client, ActivationReason, trigger, double_click, unknown, context, middle_click, Action,
  single_shot, emit, set_icon, no_connection_icon, warns, closes, connect_to_server_slot,
  check_server_connection_slot,
}
use easysync.Client.Phases.{one_if}
use easysync.Client.{
  start_synchronisation, handle_sync_is_finished, handle_directory_changed, handle_socket_connected,
  handle_socket_disconnected, send_keep_alive, connect_to_server, check_server_connection,
  online_state_changed, handle_save_button, select_directory, icon_activated, on_request,
  on_message, read_buffered, install_watcher, stop_watcher, send_greetings, write_settings,
}

-- How often the timers of connectToServer and of checkServerConnection were started.
abbrev pub is_retry : Action → ℕ
is_retry (single_shot n connect_to_server_slot) = 1
is_retry _ = 0

abbrev pub is_check : Action → ℕ
is_check (single_shot n check_server_connection_slot) = 1
is_check _ = 0

abbrev pub total : (Action → ℕ) → List Action → ℕ
total f [] = 0
total f (a ∷ as_) = f a + total f as_

pub total-append :
    (f : Action → ℕ) (xs ys : List Action) → total f (xs ++ ys) ≡ total f xs + total f ys
total-append f [] ys = omega arith
total-append f (x ∷ xs) ys = omega (arith, total-append f xs ys)

-- The parts of the state that decide whether a connection is tried for.
pub record Link : Type 0 where
  pub ready : Bool
  pub retries : ℕ
  pub checks : ℕ

abbrev pub link : Client → Link
link c = record {
  ready = c.socket_ready;
  retries = total is_retry c.actions;
  checks = total is_check c.actions;
}

-- A timer of checkServerConnection more.
abbrev pub checked : Link → Link
checked l = record l { checks = l.checks + 1 }

module _ (disk : Folders) where
  link-stop_watcher : (c : Client) → link (stop_watcher disk c) ≡ link c
  unfolding stop_watcher
  link-stop_watcher c = ground arith

  pub link-start_synchronisation :
      (b : Bool) (c : Client) → link (start_synchronisation disk b c) ≡ link c
  unfolding start_synchronisation stop_watcher
  link-start_synchronisation b c = grind (arith, total-append)

  pub link-connect_to_server : (c : Client) → link (connect_to_server c) ≡ checked (link c)
  unfolding connect_to_server
  link-connect_to_server c = grind (arith, total-append)

  pub link-handle_socket_connected :
      (c : Client) → link (handle_socket_connected disk c) ≡ record (link c) { ready = true }
  unfolding handle_socket_connected send_greetings install_watcher
  link-handle_socket_connected c = grind (arith, total-append)

  pub link-handle_socket_disconnected :
      (b : Bool) (c : Client)
      → link (handle_socket_disconnected disk b c)
        ≡ record { ready = false; retries = (link c).retries + one_if b; checks = (link c).checks }
  unfolding handle_socket_disconnected stop_watcher
  link-handle_socket_disconnected b c = grind (arith, total-append)

  pub link-online_state_changed :
      (b : Bool) (c : Client)
      → link (online_state_changed disk b c) ≡ (if b then checked (link c) else link c)
  unfolding online_state_changed
  link-online_state_changed true c = link-connect_to_server c
  link-online_state_changed false c = link-stop_watcher (set_icon no_connection_icon c)

  pub link-check_server_connection :
      (a b : Bool) (c : Client)
      → link (check_server_connection a b c)
        ≡ record (link c) { retries = (link c).retries + one_if (not c.socket_ready && a && not b) }
  unfolding check_server_connection
  link-check_server_connection a b c = grind (arith, total-append)

  pub link-handle_sync_is_finished : (c : Client) → link (handle_sync_is_finished disk c) ≡ link c
  unfolding handle_sync_is_finished install_watcher start_synchronisation stop_watcher
  link-handle_sync_is_finished c = grind (arith, total-append)

  pub link-send_keep_alive : (c : Client) → link (send_keep_alive c) ≡ link c
  unfolding send_keep_alive
  link-send_keep_alive c = grind (arith, total-append)

  pub link-handle_directory_changed : (c : Client) → link (handle_directory_changed c) ≡ link c
  unfolding handle_directory_changed
  link-handle_directory_changed c = ground arith

  pub link-icon_activated : (r : ActivationReason) (c : Client) → link (icon_activated r c) ≡ link c
  unfolding icon_activated
  link-icon_activated trigger c = grind (arith, total-append)
  link-icon_activated double_click c = grind (arith, total-append)
  link-icon_activated unknown c = refl
  link-icon_activated context c = refl
  link-icon_activated middle_click c = refl

  pub link-select_directory : (dir : Text) (c : Client) → link (select_directory dir c) ≡ link c
  unfolding select_directory
  link-select_directory dir c = ground arith

  saved-Moves :
      (c : Client)
      → let c' = write_settings (stop_watcher disk c) in
        let d =
          emit closes
            (if not c'.socket_ready then connect_to_server c' else install_watcher disk c') in
        (link d ≡ link c) ⊎ (link d ≡ checked (link c))
  unfolding write_settings stop_watcher connect_to_server install_watcher
  saved-Moves c = elim (Bool-cases c.socket_ready) [
    | inl p ↦ inl (grind (arith, total-append))
    | inr p ↦ inr (grind (arith, total-append))
  ]

  -- Saving the form starts a check, or leaves the timers alone.
  pub link-handle_save_button :
      (c : Client)
      → (link (handle_save_button disk c) ≡ link c)
        ⊎ (link (handle_save_button disk c) ≡ checked (link c))
  unfolding handle_save_button
  link-handle_save_button c =
      let P = λ (d : Client). (link d ≡ link c) ⊎ (link d ≡ checked (link c)) in
      let warned : (text : Text) → P (emit (warns text) c) =
        λ text. inl (grind (arith, total-append)) in
      if_intro P (is_empty c.ui.username_edit) _ _ (λ _. warned _)
        (λ _.
          if_intro P (is_empty c.ui.server_address_edit) _ _ (λ _. warned _)
            (λ _.
              if_intro P (is_empty c.ui.syncdir_edit) _ _ (λ _. warned _)
                (λ _.
                  if_intro P (is_empty c.ui.unison_profile_edit) _ _ (λ _. warned _)
                    (λ _. saved-Moves c))))

  link-on_request : (o : Option (Text × Text)) (c : Client) → link (on_request disk o c) ≡ link c
  link-on_request none c = grind (arith, total-append)
  link-on_request (some (cap, rest)) c = elim (Bool-cases (text_eq (unwrap cap) c.hostname)) [
    | inl p ↦ rw p (link-start_synchronisation false c)
    | inr p ↦ rw p (grind (arith, total-append))
  ]

  link-on_message :
      (u : Unicode) (id : Option ℕ) (message : Text) (c : Client)
      → link (on_message u disk id message c) ≡ link c
  link-on_message u none message c = grind (arith, total-append)
  link-on_message u (some id) message c = elim (Bool-cases (id == 2)) [
    | inl p ↦ rw p (link-on_request (bracketed u message) c)
    | inr p ↦ rw p refl
  ]

  pub link-read_buffered :
      (u : Unicode) (o : Option (Text × Text)) (buffer : Text) (c : Client)
      → link (read_buffered u disk o buffer c).1 ≡ link c
  link-read_buffered u none buffer c = refl
  link-read_buffered u (some (line, rest)) buffer c =
      link-on_message u (id_of u (chop line 1)) (chop line 1) c
