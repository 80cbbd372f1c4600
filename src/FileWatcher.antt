-- ===== src/FileWatcher.antt =====
-- client/qt: class MFileSystemWatcher, the watcher that the client uses on Windows, and its private
-- part (mfilesystemwatcher.cpp). The native engine is that of Windows, which is always there; an
-- engine that is asked for by another name is none there.
pub mod Hash
pub mod System
pub mod Thread
pub mod Adding
pub mod Removing
pub mod Notifying
pub mod Polling
pub mod Sound
pub mod Good
pub mod Placing
pub mod Ready
pub mod Dropping
pub mod Handles
pub mod Moving
pub mod Closing
pub mod Calls
pub mod Synced
pub mod Members
pub mod Timeout
pub mod Rounds
pub mod Delivery
pub mod Ledger
pub mod Trip
pub mod Examples
use easysync.Prelude.{
  ℕ, Bool, true, false, not, ◌&&◌, Option, none, some, List, [], ◌∷◌, ◌++◌, ◌==◌, if◌then◌else◌,
}
use easysync.Text.{Text, text_eq, codes, is_empty}
use easysync.Text.Format.{remove_front}
use easysync.Server.Lists.{remove_all}
use easysync.Client.Watcher.{is_in}
use System.{FileSystem}
use Thread.{State, new_engine, delete_engine, is_nil}
use Notifying.{Signal, file_changed, directory_changed}
use Polling.{timeout, Poller, Watched, Polled, new_poller, poll_paths, drop_paths}
use Adding
use Removing

pub data Warning : Type 0 where
  path_is_empty list_is_empty : Warning
  failed_to_add : List Text → Warning

-- What the watcher's own signals tell the client.
pub data Notice : Type 0 where
  file_notice directory_notice : Text → Notice

-- The lists `files` and `directories` stand in `native`.
pub record Watcher : Type 0 where
  pub object_name : Text
  pub native : State
  pub poller : Option Poller
  pub warnings : List Warning
  pub notices : List Notice

abbrev pub warn : Warning → Watcher → Watcher
warn x w = record w { warnings = w.warnings ++ x ∷ [] }

-- MFileSystemWatcher::MFileSystemWatcher, MFileSystemWatcherPrivate::init; `granted` is what Windows
-- answers later on.
unfoldable pub new_watcher : List (Option ℕ) → Watcher
new_watcher granted = record {
  object_name = [];
  native = new_engine granted;
  poller = none;
  warnings = [];
  notices = [];
}

pub data EngineChoice : Type 0 where
  native_engine polling_engine no_engine : EngineChoice

abbrev pub starts_with : Text → Text → Bool
starts_with [] s = true
starts_with (p ∷ ps) [] = false
starts_with (p ∷ ps) (c ∷ s) = c == p && starts_with ps s

abbrev pub forced_engine : Text → EngineChoice
forced_engine name =
    if text_eq name (codes "poller")
    then polling_engine
    else if text_eq name (codes "native")
    then native_engine
    else no_engine

-- The choice in addPaths.
unfoldable pub engine_for : Text → EngineChoice
engine_for object_name =
    if not (starts_with (codes "_qt_autotest_force_engine_") object_name)
    then native_engine
    else forced_engine (remove_front object_name 26)

-- MFileSystemWatcherPrivate::initPollerEngine
abbrev pub init_poller : Option Poller → Poller
init_poller none = new_poller
init_poller (some p) = p

abbrev pub lists : Watcher → Watched
lists w = record { files = w.native.files; directories = w.native.directories }

abbrev pub with_polled : Polled → Watcher → Watcher
with_polled r w = record w {
  poller = some r.poller;
  native = record w.native { files = r.watched.files; directories = r.watched.directories };
}

module _ (fs : FileSystem) (event : ℕ) where
  abbrev pub add_by : EngineChoice → List Text → Watcher → List Text × Watcher
  add_by native_engine paths w =
      let r = Adding.add_paths fs event paths w.native in (r.0, record w { native = r.1 })
  add_by polling_engine paths w =
      let r = poll_paths fs paths (init_poller w.poller) (lists w) in (r.refused, with_polled r w)
  add_by no_engine paths w = (paths, w)

  -- MFileSystemWatcher::addPaths
  unfoldable pub add_paths : List Text → Watcher → Watcher
  unfolding engine_for
  add_paths paths w =
      if is_nil paths
      then warn list_is_empty w
      else let r = add_by (engine_for w.object_name) paths w in
        if not (is_nil r.0) then warn (failed_to_add r.0) r.1 else r.1

  -- MFileSystemWatcher::addPath
  unfoldable pub add_path : Text → Watcher → Watcher
  unfolding add_paths
  add_path path w = if is_empty path then warn path_is_empty w else add_paths (path ∷ []) w

  -- Client::installWatcher and stopWatcher on Windows, with the folder of the client.
  unfoldable pub install_windows_watcher : Text → Watcher → Watcher
  unfolding add_path
  install_windows_watcher sync_dir w = if is_empty sync_dir then w else add_path sync_dir w

  -- MFileSystemWatcher::MFileSystemWatcher with a list of paths.
  unfoldable pub new_watcher_on : List Text → List (Option ℕ) → Watcher
  unfolding add_paths
  new_watcher_on paths granted = add_paths paths (new_watcher granted)

-- MFileSystemWatcher::~MFileSystemWatcher
unfoldable pub delete_watcher : Watcher → Watcher
unfolding delete_engine
delete_watcher w = record w { native = delete_engine w.native; poller = none }

module _ (fs : FileSystem) where
  abbrev pub remove_polled : List Text → Option Poller → Watcher → Watcher
  remove_polled paths none w = w
  remove_polled paths (some p) w = with_polled (drop_paths paths p (lists w)) w

  -- MFileSystemWatcher::removePaths; each engine gets what the one before it has refused.
  unfoldable pub remove_paths : List Text → Watcher → Watcher
  remove_paths paths w =
      if is_nil paths
      then warn list_is_empty w
      else let r = Removing.remove_paths fs paths w.native in
        remove_polled r.0 w.poller (record w { native = r.1 })

  -- MFileSystemWatcher::removePath
  unfoldable pub remove_path : Text → Watcher → Watcher
  unfolding remove_paths
  remove_path path w = if is_empty path then warn path_is_empty w else remove_paths (path ∷ []) w

  unfoldable pub stop_windows_watcher : Text → Watcher → Watcher
  unfolding remove_path
  stop_windows_watcher sync_dir w = if is_empty sync_dir then w else remove_path sync_dir w

-- MFileSystemWatcherPrivate::_q_fileChanged and _q_directoryChanged: a signal of an engine.
unfoldable pub on_signal : Signal → Watcher → Watcher
on_signal (file_changed path removed) w =
    let files = if removed then remove_all text_eq w.native.files path else w.native.files in
    if not (is_in path w.native.files) then w else record w {
      native = record w.native { files = files };
      notices = w.notices ++ file_notice path ∷ [];
    }
on_signal (directory_changed path removed) w =
    let directories =
      if removed then remove_all text_eq w.native.directories path else w.native.directories in
    if not (is_in path w.native.directories) then w else record w {
      native = record w.native { directories = directories };
      notices = w.notices ++ directory_notice path ∷ [];
    }

abbrev pub on_signals : List Signal → Watcher → Watcher
on_signals [] w = w
on_signals (s ∷ signals) w = on_signals signals (on_signal s w)

-- The timer of the polling engine runs out, and its signals are delivered.
abbrev pub on_polled : Poller × List Signal → Watcher → Watcher
on_polled (p, signals) w = on_signals signals (record w { poller = some p })

unfoldable pub on_timeout : FileSystem → Watcher → Watcher
on_timeout fs w = elim w.poller [ none ↦ w | some p ↦ on_polled (timeout fs p) w ]
