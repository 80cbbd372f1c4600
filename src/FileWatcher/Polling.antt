-- ===== src/FileWatcher/Polling.antt =====
-- MPollingFileSystemWatcherEngine of client/qt/mfilesystemwatcher.cpp: the engine that compares each
-- path once a second with what it was. The two lists of the watcher are an argument and a result.
use easysync.Prelude.{Bool, true, false, not, ◌&&◌, ◌||◌, List, [], ◌∷◌, ◌++◌, if◌then◌else◌}
use easysync.Text.{Text, text_eq}
use easysync.Server.Lists.{append, remove_all}
use easysync.Client.Watcher.{is_in}
use easysync.FileWatcher.Hash.{Entry, Hash, contains, insert, erase}
use easysync.FileWatcher.System.{FileSystem, Stat, stat_eq, texts_eq, ends_with}
use easysync.FileWatcher.Thread.{is_nil}
use easysync.FileWatcher.Notifying.{Signal, file_changed, directory_changed}

-- MPollingFileSystemWatcherEngine::FileInfo
pub record FileInfo : Type 0 where
  pub stat : Stat
  pub entries : List Text

unfoldable pub file_info : FileSystem → Text → FileInfo
file_info fs path = record {
  stat = fs.stat path;
  entries = if fs.is_dir path then fs.entries path else [];
}

-- Its `!=`.
unfoldable pub differs : FileSystem → FileInfo → Text → Bool
differs fs i path =
    (fs.is_dir path && not (texts_eq i.entries (fs.entries path)))
    || not (stat_eq i.stat (fs.stat path))

pub record Poller : Type 0 where
  pub polled_files : Hash Text FileInfo
  pub polled_directories : Hash Text FileInfo
  pub is_running : Bool

pub record Watched : Type 0 where
  pub files : List Text
  pub directories : List Text

-- MPollingFileSystemWatcherEngine::MPollingFileSystemWatcherEngine
abbrev pub new_poller : Poller
new_poller = record { polled_files = []; polled_directories = []; is_running = false }

abbrev pub slashed : Text → Text
slashed path = if not (ends_with b'/' path) then path ++ b'/' ∷ [] else path

abbrev pub append_new : List Text → Text → List Text
append_new paths path = if is_in path paths then paths else append paths path

pub record Polled : Type 0 where
  pub refused : List Text
  pub poller : Poller
  pub watched : Watched

-- The paths that the rounds before have refused come first.
abbrev pub behind : List Text → Polled → Polled
behind refused r = record r { refused = refused ++ r.refused }

abbrev pub poll_directory : FileSystem → Text → Poller → Poller
poll_directory fs path p = record p {
  polled_directories = insert text_eq path (file_info fs (slashed path)) p.polled_directories;
}

abbrev pub poll_file : FileSystem → Text → Poller → Poller
poll_file fs path p = record p {
  polled_files = insert text_eq path (file_info fs path) p.polled_files;
}

-- One round of addPaths.
unfoldable pub poll_one : FileSystem → Text → Poller → Watched → Polled
unfolding file_info
poll_one fs path p w =
    if not (fs.exists path)
    then record { refused = path ∷ []; poller = p; watched = w }
    else if fs.is_dir path
    then record {
      refused = [];
      poller = poll_directory fs path p;
      watched = record w { directories = append_new w.directories path };
    }
    else record {
      refused = [];
      poller = poll_file fs path p;
      watched = record w { files = append_new w.files path };
    }

unfoldable pub poll_each : FileSystem → List Text → Poller → Watched → Polled
unfolding poll_one
poll_each fs [] p w = record { refused = []; poller = p; watched = w }
poll_each fs (path ∷ paths) p w =
    let r = poll_one fs path p w in behind r.refused (poll_each fs paths r.poller r.watched)

-- MPollingFileSystemWatcherEngine::run, as far as the start of its timer, and stop, with the `wait`
-- behind it.
abbrev pub run : Poller → Poller
run p = record p { is_running = true }

abbrev pub stop : Poller → Poller
stop p = record p { is_running = false }

abbrev pub started : Polled → Polled
started r = record r { poller = run r.poller }

-- MPollingFileSystemWatcherEngine::addPaths
unfoldable pub poll_paths : FileSystem → List Text → Poller → Watched → Polled
unfolding poll_each
poll_paths fs paths p w = started (poll_each fs paths p w)

-- One round of removePaths.
unfoldable pub drop_one : Text → Poller → Watched → Polled
drop_one path p w =
    if contains text_eq path p.polled_directories
    then record {
      refused = [];
      poller = record p { polled_directories = erase text_eq path p.polled_directories };
      watched = record w { directories = remove_all text_eq w.directories path };
    }
    else if contains text_eq path p.polled_files
    then record {
      refused = [];
      poller = record p { polled_files = erase text_eq path p.polled_files };
      watched = record w { files = remove_all text_eq w.files path };
    }
    else record { refused = path ∷ []; poller = p; watched = w }

unfoldable pub drop_each : List Text → Poller → Watched → Polled
unfolding drop_one
drop_each [] p w = record { refused = []; poller = p; watched = w }
drop_each (path ∷ paths) p w =
    let r = drop_one path p w in behind r.refused (drop_each paths r.poller r.watched)

abbrev pub stopped_if_empty : Polled → Polled
stopped_if_empty r =
    if is_nil r.poller.polled_files && is_nil r.poller.polled_directories
    then record r { poller = stop r.poller }
    else r

-- MPollingFileSystemWatcherEngine::removePaths
unfoldable pub drop_paths : List Text → Poller → Watched → Polled
unfolding drop_each
drop_paths paths p w = stopped_if_empty (drop_each paths p w)

-- One round of each loop of timeout: what is left of the entry, and the signals.
pub record Round : Type 0 where
  pub kept : Hash Text FileInfo
  pub signals : List Signal

abbrev pub round : FileSystem → (Text → Bool → Signal) → (Text → Text) → Entry Text FileInfo → Round
round fs signal place x =
    let path = place x.key in
    if not (fs.exists path)
    then record { kept = []; signals = signal x.key true ∷ [] }
    else if differs fs x.value path
    then record {
      kept = record x { value = file_info fs path } ∷ [];
      signals = signal x.key false ∷ [];
    }
    else record { kept = x ∷ []; signals = [] }

abbrev pub both : Round → Round → Round
both a b = record { kept = a.kept ++ b.kept; signals = a.signals ++ b.signals }

abbrev pub rounds : FileSystem → (Text → Bool → Signal) → (Text → Text) → Hash Text FileInfo → Round
rounds fs signal place [] = record { kept = []; signals = [] }
rounds fs signal place (x ∷ h) = both (round fs signal place x) (rounds fs signal place h)

-- MPollingFileSystemWatcherEngine::timeout
unfoldable pub timeout : FileSystem → Poller → Poller × List Signal
unfolding differs file_info
timeout fs p =
    let f = rounds fs file_changed (λ path. path) p.polled_files in
    let d = rounds fs directory_changed slashed p.polled_directories in
    (record p { polled_files = f.kept; polled_directories = d.kept }, f.signals ++ d.signals)
