-- ===== src/FileWatcher/Adding.antt =====
-- addPaths of client/qt/mfilesystemwatcher_win.cpp.
use easysync.Prelude.{
  ℕ, Bool, true, false, not, Option, none, some, List, [], ◌∷◌, ◌++◌, ◌==◌, ltb, length,
  if◌then◌else◌,
}
use easysync.Text.{Text, text_eq}
use easysync.Server.Lists.{append}
use easysync.Client.Watcher.{is_in}
use easysync.FileWatcher.Hash.{lookup, contains, insert}
use easysync.FileWatcher.System.{FileSystem, normal_path}
use easysync.FileWatcher.Thread.{
  max_wait_objects, flags_for, Handle, PathInfo, Thread, State, infos_of, set_infos, new_thread,
  wakeup, refused_if,
}

-- What addPaths works out of one path that exists.
pub record Request : Type 0 where
  pub key : Text
  pub info : PathInfo

abbrev pub flags_of : Request → ℕ
flags_of q = flags_for q.info.is_dir

abbrev pub request_of : FileSystem → Text → Request
request_of fs path =
    let file = fs.to_lower (normal_path path) in
    let is_dir = fs.is_dir file in
    record {
      key = fs.absolute_file_path file;
      info = record {
        absolute_path = if is_dir then fs.absolute_file_path file else fs.absolute_path file;
        path = path;
        is_dir = is_dir;
        stat = fs.stat file;
      };
    }

-- The handle of the thread for the folder, if it has the flags.
abbrev pub with_flags : ℕ → Option Handle → Option ℕ
with_flags flags none = none
with_flags flags (some h) = if h.flags == flags then some h.handle else none

abbrev pub known_handle : Request → Thread → Option ℕ
known_handle q t = with_flags (flags_of q) (lookup text_eq q.info.absolute_path t.handle_for_dir)

-- The threads after the first loop, and whether the path is new there.
pub data Search : Type 0 where
  absent : Search
  at_thread : Bool → List Thread → Search

abbrev pub behind : Thread → Search → Search
behind t absent = absent
behind t (at_thread new ts) = at_thread new (t ∷ ts)

abbrev pub add_info : Request → ℕ → Thread → Thread
add_info q handle t = set_infos handle (insert text_eq q.key q.info (infos_of handle t)) t

-- The round at a thread that has this handle for the folder, or none; `later` is what the rounds
-- after it find.
abbrev pub found_at : Request → Option ℕ → Thread → List Thread → Search → Search
found_at q none t ts later = behind t later
found_at q (some handle) t ts later =
    if contains text_eq q.key (infos_of handle t)
    then at_thread false (wakeup t ∷ ts)
    else at_thread true (wakeup (add_info q handle t) ∷ ts)

abbrev pub insert_known : Request → List Thread → Search
insert_known q [] = absent
insert_known q (t ∷ ts) = found_at q (known_handle q t) t ts (insert_known q ts)

-- A new handle goes to a thread.
abbrev pub take_handle : Request → ℕ → Thread → Thread
take_handle q handle t =
    let h : Handle = record { handle = handle; flags = flags_of q } in
    add_info q handle (record t {
      handles = t.handles ++ handle ∷ [];
      handle_for_dir = insert text_eq q.info.absolute_path h t.handle_for_dir;
    })

-- The second loop: the first thread with room, or else a new one.
abbrev pub place_handle : ℕ → Request → ℕ → List Thread → List Thread
place_handle event q handle [] =
    record (take_handle q handle (new_thread event)) { msg = b'@'; is_running = true } ∷ []
place_handle event q handle (t ∷ ts) =
    let rest = place_handle event q handle ts in
    if ltb (length t.handles) max_wait_objects
    then wakeup (take_handle q handle t) ∷ ts
    else t ∷ rest

abbrev pub list_path : PathInfo → State → State
list_path i s =
    if i.is_dir
    then record s { directories = append s.directories i.path }
    else record s { files = append s.files i.path }

-- No thread has a handle for the folder: the first of `granted` is what Windows gives.
abbrev pub grant : ℕ → Request → List (Option ℕ) → State → Bool × State
grant event q [] s = (false, s)
grant event q (none ∷ g) s = (false, record s { granted = g })
grant event q (some handle ∷ g) s = (
  true,
  list_path q.info (record s {
    granted = g;
    given = s.given ++ handle ∷ [];
    threads = place_handle event q handle s.threads;
  }),
)

abbrev pub after_search : ℕ → Request → Search → State → Bool × State
after_search event q absent s = grant event q s.granted s
after_search event q (at_thread new ts) s =
    let s' = record s { threads = ts } in (true, if new then list_path q.info s' else s')

-- One round of addPaths: whether the path is taken out of the result.
unfoldable pub add_one : FileSystem → ℕ → Text → State → Bool × State
unfolding new_thread wakeup
add_one fs event path s =
    let q = request_of fs path in
    if not (fs.exists (fs.to_lower (normal_path path)))
    then (false, s)
    else if is_in path (if q.info.is_dir then s.directories else s.files)
    then (false, s)
    else after_search event q (insert_known q s.threads) s

-- addPaths: the paths that are refused, and the state.
unfoldable pub add_paths : FileSystem → ℕ → List Text → State → List Text × State
unfolding add_one
add_paths fs event [] s = ([], s)
add_paths fs event (path ∷ paths) s =
    let r = add_one fs event path s in refused_if r.0 path (add_paths fs event paths r.1)
