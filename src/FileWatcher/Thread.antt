-- ===== src/FileWatcher/Thread.antt =====
-- client/qt/mfilesystemwatcher_win.cpp and mfilesystemwatcher_win_p.h: the engine that watches by
-- change notifications of Windows. A HANDLE is a number. The handle of a thread's event, which
-- `CreateEvent` is taken to give, is `event`; what the next calls of FindFirstChangeNotification
-- give is the list `granted`, with `none` for INVALID_HANDLE_VALUE. `given` and `closed` are the
-- handles that it has given and that were closed so far.
use easysync.Prelude.{
  ℕ, ◌+◌, Bool, true, false, Option, none, some, List, [], ◌∷◌, ◌++◌, ◌==◌, if◌then◌else◌,
}
use easysync.Text.{Text, text_eq}
use easysync.FileWatcher.Hash.{Hash, lookup, insert, erase}
use easysync.FileWatcher.System.{Stat}

abbrev pub max_wait_objects : ℕ
max_wait_objects = 64

-- FILE_NOTIFY_CHANGE_: FILE_NAME 1, DIR_NAME 2, ATTRIBUTES 4, SIZE 8, LAST_WRITE 16, SECURITY 256.
abbrev pub flags_for : Bool → ℕ
flags_for is_dir = if is_dir then 2 + 1 + 8 else 2 + 1 + 4 + 8 + 16 + 256

pub record Handle : Type 0 where
  pub handle : ℕ
  pub flags : ℕ

pub record PathInfo : Type 0 where
  pub absolute_path : Text
  pub path : Text
  pub is_dir : Bool
  pub stat : Stat

pub record Thread : Type 0 where
  pub handles : List ℕ
  pub msg : ℕ
  pub handle_for_dir : Hash Text Handle
  pub path_info_for_handle : Hash ℕ (Hash Text PathInfo)
  pub is_running : Bool

-- The engine, with the two lists of the watcher that its methods fill and clear.
pub record State : Type 0 where
  pub threads : List Thread
  pub granted : List (Option ℕ)
  pub given : List ℕ
  pub closed : List ℕ
  pub files : List Text
  pub directories : List Text

abbrev pub nat_eq : ℕ → ℕ → Bool
nat_eq a b = a == b

-- `pathInfoForHandle[handle]`
abbrev pub infos_or_empty : Option (Hash Text PathInfo) → Hash Text PathInfo
infos_or_empty none = []
infos_or_empty (some h) = h

abbrev pub infos_of : ℕ → Thread → Hash Text PathInfo
infos_of handle t = infos_or_empty (lookup nat_eq handle t.path_info_for_handle)

abbrev pub set_infos : ℕ → Hash Text PathInfo → Thread → Thread
set_infos handle h t = record t {
  path_info_for_handle = insert nat_eq handle h t.path_info_for_handle;
}

-- ModifiedWindowsFileSystemWatcherEngineThread: the constructor, stop and wakeup.
unfoldable pub new_thread : ℕ → Thread
new_thread event = record {
  handles = event ∷ [];
  msg = 0;
  handle_for_dir = [];
  path_info_for_handle = [];
  is_running = false;
}

unfoldable pub stop_thread : Thread → Thread
stop_thread t = record t { msg = b'q' }

unfoldable pub wakeup : Thread → Thread
wakeup t = record t { msg = b'@' }

abbrev pub refused_if : Bool → Text → List Text × State → List Text × State
refused_if taken path (refused, s) = (if taken then refused else path ∷ refused, s)

abbrev pub is_nil {ℓ} : {A : Type ℓ} → List A → Bool
is_nil [] = true
is_nil (x ∷ xs) = false

-- `handles.remove(indexOf(handle))`
abbrev pub remove_first : ℕ → List ℕ → List ℕ
remove_first x [] = []
remove_first x (y ∷ ys) = if y == x then ys else y ∷ remove_first x ys

abbrev pub close_handle : ℕ → Text → Thread → Thread
close_handle handle folder t = record t {
  handles = remove_first handle t.handles;
  handle_for_dir = erase text_eq folder t.handle_for_dir;
}

-- ModifiedWindowsFileSystemWatcherEngine: the constructor and stop.
abbrev pub new_engine : List (Option ℕ) → State
new_engine granted = record {
  threads = [];
  granted = granted;
  given = [];
  closed = [];
  files = [];
  directories = [];
}

abbrev pub stop_each : List Thread → List Thread
stop_each [] = []
stop_each (t ∷ ts) = stop_thread t ∷ stop_each ts

unfoldable pub stop : State → State
unfolding stop_thread
stop s = record s { threads = stop_each s.threads }

abbrev pub behind_event : List ℕ → List ℕ
behind_event [] = []
behind_event (event ∷ handles) = handles

-- ~ModifiedWindowsFileSystemWatcherEngineThread: the handles that it closes, beside that of the event.
unfoldable pub delete_thread : Thread → List ℕ
delete_thread t = behind_event t.handles

abbrev pub delete_each : List Thread → List ℕ
unfolding delete_thread
delete_each [] = []
delete_each (t ∷ ts) = delete_thread t ++ delete_each ts

-- ~ModifiedWindowsFileSystemWatcherEngine: each thread has stopped before it is deleted.
unfoldable pub delete_engine : State → State
delete_engine s = record s { threads = []; closed = s.closed ++ delete_each s.threads }
