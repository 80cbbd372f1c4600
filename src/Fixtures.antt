-- ===== src/Fixtures.antt =====
-- Concrete data for the examples: two users, the hosts of the first, an engine over them, and a client.
use easysync.Prelude.{pos, true, false, some, List, [], ◌∷◌}
use easysync.Text.{Text, codes}
use easysync.Text.Scan.{Unicode}
use easysync.Database.Schema.{User, Host, Tables}
use easysync.Database.Engine.{Engine}
use easysync.Database.Reference.{reference}
use easysync.DbManager.{DbManager}
use easysync.Server.{Server}
use easysync.Client.State.{Client, Form, Settings, no_connection_icon}
use easysync.Client.Watcher.{Folders, nothing, folder}

abbrev pub ascii_only : Unicode
ascii_only = record { letter = λ c. false; decimal = λ c. false }

abbrev pub alice : Text
alice = codes "alice"

abbrev pub bob : Text
bob = codes "bob"

abbrev pub two_users : List User
two_users = record { id = 1; username = alice } ∷ record { id = 2; username = bob } ∷ []

-- The laptop is the second connection, and the desktop the first.
abbrev pub two_hosts : List Host
two_hosts =
    record { id = 1; user_id = 1; must_sync = 0; hostname = codes "desktop"; socket_id = pos 0 }
    ∷ record { id = 2; user_id = 1; must_sync = 0; hostname = codes "laptop"; socket_id = pos 1 }
    ∷ []

abbrev pub two_tables : Tables
two_tables = record { users = some two_users; hosts = some two_hosts }

-- SQLite's driver does not report the size of a result.
abbrev pub engine : Engine
engine = reference false two_tables

abbrev pub manager : DbManager engine
manager = record { db_path = codes "easysync.sqlite"; db = some two_tables }

-- The desktop is socket 7 and was last seen half a minute before midnight, the laptop is socket 9.
abbrev pub server : Server engine
server = record {
  disabled = false;
  db_manager = manager;
  client_connections = 7 ∷ 9 ∷ [];
  peer_names = codes "desktop" ∷ codes "laptop" ∷ [];
  client_last_seen = 86370000 ∷ 86380000 ∷ [];
  keep_alive_active = true;
  pending = [];
  wired = 7 ∷ 9 ∷ [];
  actions = [];
}

-- The same tables when the laptop has to synchronise.
abbrev pub due_tables : Tables
due_tables = record {
  users = some two_users;
  hosts = some (
      record { id = 1; user_id = 1; must_sync = 0; hostname = codes "desktop"; socket_id = pos 0 }
      ∷ record { id = 2; user_id = 1; must_sync = 1; hostname = codes "laptop"; socket_id = pos 1 }
      ∷ []);
}

abbrev pub due_manager : DbManager engine
due_manager = record { db_path = codes "easysync.sqlite"; db = some due_tables }

abbrev pub desktop : Text
desktop = codes "desktop"

abbrev pub form : Form
form = record {
  username_edit = alice;
  hostname_edit = desktop;
  server_address_edit = codes "box";
  port_edit = codes "9090";
  syncdir_edit = codes "/a";
  unison_profile_edit = codes "work";
}

abbrev no_settings : Settings
no_settings = record {
  account_username = [];
  account_hostname = [];
  settings_address = [];
  settings_port = [];
  settings_syncdir = [];
  settings_profile = [];
}

-- A client that is connected and idle, over the folders /a and /a/b.
abbrev pub client : Client
client = record {
  ui = form;
  settings = no_settings;
  username = alice;
  hostname = desktop;
  sync_dir = codes "/a";
  server_address = codes "box";
  port = codes "9090";
  notify_all_after_sync = false;
  sync_in_progress = false;
  need_to_sync = false;
  socket_ready = true;
  watched = codes "/a" ∷ codes "/a/b" ∷ [];
  sync_timer_active = false;
  keep_alive_active = true;
  keep_alive_interval = 60000;
  icon = no_connection_icon;
  actions = [];
}

abbrev pub disk : Folders
disk = folder (codes "b") false nothing nothing
