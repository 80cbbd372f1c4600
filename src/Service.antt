-- ===== src/Service.antt =====
-- server/easysyncservice.cpp: class EasysyncService, with the constructor and the destructor of
-- EasysyncServer (server/easysyncserver.cpp) that it calls. What `QSettings`, `QVariant` and the
-- network say is the parameter `Host`; the service framework that calls the methods is left out.
pub mod Arguments
pub mod Starting
pub mod Examples
use easysync.Prelude.{
  ℕ, ◌%◌, ◌^◌, Bool, true, false, not, Option, none, some, List, [], ◌∷◌, ◌++◌, if◌then◌else◌,
}
use easysync.Text.{Text, codes, is_empty}
use easysync.Text.Format.{arg}
use easysync.Database.Engine.{Engine}
use easysync.DbManager.{
  DbManager, init, is_connected, connect, disconnect, delete_manager, create_tables, add_user,
}
use easysync.DbManager.Paths.{Environment, init_db_path}
use easysync.Server
use easysync.Server.{Server}
use Arguments.{Options, process_arguments}

pub record Host : Type 0 where
  pub environment : Environment
  -- `QVariant::toUInt` of the text of a setting.
  pub variant_to_uint : Text → ℕ
  -- `QString::arg` of a number: its decimal digits.
  pub number : ℕ → Text
  -- `listen` on that port succeeds.
  pub can_listen : ℕ → Bool

module _ (e : Engine) where
  -- A server with the answer of `isListening`.
  pub record Instance : Type 0 where
    pub listening : Bool
    pub port : ℕ
    pub state : Server e

  -- The pointer `server` is `none` where it is NULL. What start logs is in `logged`, `quits` is set
  -- where it calls `quit` of the application, and `stored` is the manager by which it has added a
  -- user, as it is when it is deleted.
  pub record Service : Type 0 where
    pub server : Option Instance
    pub logged : List Text
    pub quits : Bool
    pub stored : Option (DbManager e)

  -- EasysyncService::EasysyncService
  abbrev pub new_service : Service
  new_service = record { server = none; logged = []; quits = false; stored = none }

  -- `logMessage`
  abbrev pub log_message : Text → Service → Service
  log_message text s = record s { logged = s.logged ++ text ∷ [] }

  abbrev pub log_unless : Bool → Text → Service → Service
  log_unless ok text s = if ok then s else log_message text s

  -- EasysyncServer::~EasysyncServer, and the manager that goes with it.
  unfoldable pub delete_server : Instance → Instance
  delete_server i =
      let s = Server.stop e i.state in
      record i {
        listening = false;
        state = record s { db_manager = delete_manager e s.db_manager };
      }

  -- `server->dbManager.disconnect()`
  abbrev pub disconnected : Instance → Instance
  disconnected i = record i {
    state = record i.state { db_manager = disconnect e i.state.db_manager };
  }

  abbrev pub stop_at : Option Instance → Service → Service × Option Instance
  stop_at none s = (s, none)
  stop_at (some i) s = (record s { server = none }, some (delete_server (disconnected i)))

  abbrev pub delete_at : Option Instance → Service → Service × Option Instance
  delete_at none s = (s, none)
  delete_at (some i) s = (record s { server = none }, some (delete_server i))

  -- EasysyncService::~EasysyncService: what it leaves, and the server as it is deleted.
  unfoldable pub delete_service : Service → Service × Option Instance
  unfolding delete_server
  delete_service s = delete_at s.server s

  -- EasysyncService::stop: what it leaves, and the server as it is deleted.
  unfoldable pub stop : Service → Service × Option Instance
  unfolding delete_server
  stop s = stop_at s.server s

  -- `stop(); app->quit();`
  abbrev pub quit : Service → Service
  quit s = record (stop s).0 { quits = true }

  -- EasysyncServer::EasysyncServer. `connect` is asked to open the path of initDbPath.
  unfoldable pub new_server : Host → ℕ → Text → Instance
  new_server host port config_path =
      let location = init_db_path host.environment config_path in
      record {
        listening = host.can_listen port;
        port = port;
        state = record {
          disabled = false;
          db_manager = (connect e (record (init e) { db_path = location.db_path })).1;
          client_connections = [];
          peer_names = [];
          client_last_seen = [];
          keep_alive_active = false;
          pending = [];
          wired = [];
          actions = [];
        };
      }

  -- What initDbPath logs goes to the service.
  abbrev pub locate : Host → Text → Service → Service
  locate host config_path s = record s {
    logged = s.logged ++ (init_db_path host.environment config_path).logged;
  }

  -- The branch of start for `--adduser`.
  unfoldable pub enrol : Host → Options → Service → Service
  enrol host o s =
      let location = init_db_path host.environment o.config_path in
      let opened = (connect e (record (init e) { db_path = location.db_path })).1 in
      let (created, m) = create_tables e opened in
      let (added, m') = add_user e m o.username in
      let s' =
        log_unless created (codes "Failed to create tables in the database")
          (locate host o.config_path s) in
      let s'' = log_unless added (codes "Failed to add user to the database") s' in
      quit (record s'' { stored = some m' })

  -- `port` of start, a `quint16`.
  unfoldable pub port_of : Host → Text → ℕ
  port_of host config_path =
      let env = host.environment in
      if not (is_empty config_path)
      then host.variant_to_uint (env.setting (env.absolute_file_path config_path) (codes "port"))
        % 2 ^ 16
      else 1984

  -- The branch of start for a server.
  unfoldable pub serve : Host → Options → Service → Service
  unfolding new_server port_of
  serve host o s =
      let port = port_of host o.config_path in
      let i = new_server host port o.config_path in
      let s' = record (locate host o.config_path s) { server = some i } in
      if not i.listening
      then quit (log_message (arg (codes "Failed to bind to port %1") (host.number port)) s')
      else if not (is_connected e i.state.db_manager)
      then quit s'
      else log_message (codes "Service have been started") s'

  -- EasysyncService::start, on the arguments behind the name of the program.
  unfoldable pub start : Host → List Text → Service → Service
  unfolding enrol serve
  start host args s =
      let o = process_arguments args (record { username = []; config_path = [] }) in
      if not (is_empty o.username) then enrol host o s else serve host o s

  -- EasysyncService::pause and resume: `none` where they call a method of no server.
  abbrev pub on_server : (Server e → Server e) → Service → Option Service
  on_server f s = elim s.server [
    | none ↦ none
    | some i ↦ some (record s { server = some (record i { state = f i.state }) })
  ]

  unfoldable pub pause : Service → Option Service
  pause = on_server (Server.pause e)

  unfoldable pub resume : Service → Option Service
  resume = on_server (Server.resume e)
