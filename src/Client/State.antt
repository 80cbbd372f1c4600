-- ===== src/Client/State.antt =====
-- The state of class Client (client/client.h), and what its slots ask of their surroundings.
use easysync.Prelude.{ℕ, Bool, List, [], ◌∷◌, ◌++◌}
use easysync.Text.{Text}

-- The slots that single-shot timers start.
pub data Slot : Type 0 where
  connect_to_server_slot check_server_connection_slot : Slot

pub data Action : Type 0 where
  writes starts warns : Text → Action
  -- The address and the text of the port, which `toInt` reads.
  connects : (address port : Text) → Action
  single_shot : ℕ → Slot → Action
  aborts disconnects shows closes : Action

pub data Icon : Type 0 where
  sync_in_progress_icon no_connection_icon connected_icon : Icon

-- `QSystemTrayIcon::ActivationReason`
pub data ActivationReason : Type 0 where
  unknown context double_click trigger middle_click : ActivationReason

-- The values under the keys of `QSettings`; a key that is not there has the empty value.
pub record Settings : Type 0 where
  pub account_username : Text
  pub account_hostname : Text
  pub settings_address : Text
  pub settings_port : Text
  pub settings_syncdir : Text
  pub settings_profile : Text

-- The texts of the line edits.
pub record Form : Type 0 where
  pub username_edit : Text
  pub hostname_edit : Text
  pub server_address_edit : Text
  pub port_edit : Text
  pub syncdir_edit : Text
  pub unison_profile_edit : Text

pub record Client : Type 0 where
  pub ui : Form
  pub settings : Settings
  pub username : Text
  pub hostname : Text
  pub sync_dir : Text
  pub server_address : Text
  pub port : Text
  pub notify_all_after_sync : Bool
  pub sync_in_progress : Bool
  pub need_to_sync : Bool
  pub socket_ready : Bool
  pub watched : List Text
  pub sync_timer_active : Bool
  pub keep_alive_active : Bool
  pub keep_alive_interval : ℕ
  pub icon : Icon
  pub actions : List Action

abbrev pub emit : Action → Client → Client
emit a c = record c { actions = c.actions ++ a ∷ [] }

-- Client::setIcon; the file of the icon and the tip are read off it.
abbrev pub set_icon : Icon → Client → Client
set_icon i c = record c { icon = i }
