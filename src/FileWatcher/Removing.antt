-- ===== src/FileWatcher/Removing.antt =====
-- removePaths of client/qt/mfilesystemwatcher_win.cpp.
use easysync.Prelude.{
  ℕ, Bool, true, false, Option, none, some, not, none, some, List, [], ◌∷◌, ◌++◌, filter,
  if◌then◌else◌,
}
use easysync.Text.{Text, text_eq}
use easysync.Server.Lists.{remove_all}
use easysync.FileWatcher.Hash.{lookup, contains, erase}
use easysync.FileWatcher.System.{FileSystem, normal_path}
use easysync.FileWatcher.Thread.{
  Handle, Thread, State, infos_of, set_infos, stop_thread, refused_if, is_nil, close_handle,
  delete_thread, delete_each,
}

-- What removePaths does at the thread that has a handle: whether the path was there, whether it is
-- taken out of the result, and the thread.
pub record Removal : Type 0 where
  pub was_there : Bool
  pub is_taken : Bool
  pub closes : List ℕ
  pub threads : List Thread

-- `stop(); wait();`: the thread has read the message and returned.
abbrev pub stop_if_idle : Thread → Thread
stop_if_idle t =
    if is_nil t.handle_for_dir then record (stop_thread t) { msg = 0; is_running = false } else t

abbrev pub remove_info : Text → Text → ℕ → Thread → List Thread → Removal
remove_info key folder handle t ts =
    let h = infos_of handle t in
    let h' = erase text_eq key h in
    let t' = set_infos handle h' t in
    if not (contains text_eq key h)
    then record { was_there = false; is_taken = false; closes = []; threads = t ∷ ts }
    else if is_nil h'
    then record {
      was_there = true;
      is_taken = true;
      closes = handle ∷ [];
      threads = stop_if_idle (close_handle handle folder t') ∷ ts;
    }
    else record { was_there = true; is_taken = false; closes = []; threads = t' ∷ ts }

abbrev pub behind_removal : Thread → Removal → Removal
behind_removal t r = record r { threads = t ∷ r.threads }

-- The round at a thread with these handles for the two folders; `later` is what the rounds after it
-- do.
abbrev pub removal_at :
    (key parent folder : Text)
    → Option Handle
    → Option Handle
    → Thread
    → List Thread
    → Removal
    → Removal
removal_at key parent folder (some h) _ t ts later = remove_info key folder h.handle t ts
removal_at key parent folder none (some h) t ts later = remove_info key parent h.handle t ts
removal_at key parent folder none none t ts later = behind_removal t later

-- The loop over the threads. `folder` is the variable `absolutePath`: once a thread has no handle for
-- it, it is the folder `parent` that the path lies in, for this thread and all later ones.
abbrev pub remove_at : (key parent folder : Text) → List Thread → Removal
remove_at key parent folder [] = record {
  was_there = false;
  is_taken = false;
  closes = [];
  threads = [];
}
remove_at key parent folder (t ∷ ts) =
    removal_at key parent folder (lookup text_eq folder t.handle_for_dir)
      (lookup text_eq parent t.handle_for_dir) t ts (remove_at key parent parent ts)

-- One round of removePaths.
unfoldable pub remove_one : FileSystem → Text → State → Bool × State
unfolding stop_thread
remove_one fs path s =
    let file = fs.to_lower (normal_path path) in
    let key = fs.absolute_file_path file in
    let r = remove_at key (fs.absolute_path file) key s.threads in
    let s' = record s { threads = r.threads; closed = s.closed ++ r.closes } in
    (
      r.is_taken,
      if r.was_there
          then record s' {
            files = remove_all text_eq s.files path;
            directories = remove_all text_eq s.directories path;
          }
          else s',
    )

unfoldable pub remove_each : FileSystem → List Text → State → List Text × State
unfolding remove_one
remove_each fs [] s = ([], s)
remove_each fs (path ∷ paths) s =
    let r = remove_one fs path s in refused_if r.0 path (remove_each fs paths r.1)

-- The end of removePaths: the threads that were stopped are deleted.
unfoldable pub sweep : State → State
unfolding delete_thread
sweep s = record s {
  threads = filter (λ (t : Thread). t.is_running) s.threads;
  closed = s.closed ++ delete_each (filter (λ (t : Thread). not t.is_running) s.threads);
}

-- ModifiedWindowsFileSystemWatcherEngine::removePaths
unfoldable pub remove_paths : FileSystem → List Text → State → List Text × State
unfolding remove_each sweep
remove_paths fs paths s = let (refused, s') = remove_each fs paths s in (refused, sweep s')
