-- ===== src/FileWatcher/Notifying.antt =====
-- run of client/qt/mfilesystemwatcher_win.cpp: what a thread does when it is woken.
use easysync.Prelude.{
  ℕ, Bool, true, false, not, Option, none, some, List, [], ◌∷◌, ◌++◌, ◌==◌, if◌then◌else◌,
  get_elem?, any,
}
use easysync.Text.{Text}
use easysync.FileWatcher.Hash.{Entry, Hash}
use easysync.FileWatcher.System.{FileSystem, stat_eq}
use easysync.FileWatcher.Thread.{PathInfo, Thread, infos_of, set_infos, is_nil, close_handle}

-- The signals of an engine; the second argument is `removed`.
pub data Signal : Type 0 where
  file_changed directory_changed : Text → Bool → Signal

abbrev pub changed : PathInfo → Bool → Signal
changed i removed =
    if i.is_dir then directory_changed i.path removed else file_changed i.path removed

pub record Checked : Type 0 where
  pub kept : Hash Text PathInfo
  pub signals : List Signal

-- One round of the loop over the paths of the handle: what is left of the entry, and the signals.
unfoldable pub check_path : FileSystem → Entry Text PathInfo → Checked
check_path fs x =
    let i = x.value in
    let updated : Entry Text PathInfo = record x { value = record i { stat = fs.stat i.path } } in
    if not (fs.exists i.path)
    then record { kept = []; signals = changed i true ∷ [] }
    else if i.is_dir
    then record { kept = updated ∷ []; signals = changed i false ∷ [] }
    else if not (stat_eq i.stat (fs.stat i.path))
    then record { kept = updated ∷ []; signals = changed i false ∷ [] }
    else record { kept = x ∷ []; signals = [] }

abbrev pub both : Checked → Checked → Checked
both a b = record { kept = a.kept ++ b.kept; signals = a.signals ++ b.signals }

unfoldable pub check_each : FileSystem → Hash Text PathInfo → Checked
unfolding check_path
check_each fs [] = record { kept = []; signals = [] }
check_each fs (x ∷ h) = both (check_path fs x) (check_each fs h)

-- The folder of the last path: if no path is left, it was the last that was taken out.
abbrev pub last_folder : Text → Hash Text PathInfo → Text
last_folder folder [] = folder
last_folder folder (x ∷ h) = last_folder x.value.absolute_path h

-- What a round leaves: the thread, its signals, and the handle that it has closed.
pub record Woken : Type 0 where
  pub thread : Thread
  pub signals : List Signal
  pub closes : List ℕ

abbrev pub asleep : Thread → Woken
asleep t = record { thread = t; signals = []; closes = [] }

-- The handle is closed with the last of its paths.
abbrev pub check_handle : FileSystem → ℕ → Hash Text PathInfo → Thread → Woken
check_handle fs handle [] t = asleep t
check_handle fs handle (x ∷ h) t =
    let c = check_each fs (x ∷ h) in
    let t' = set_infos handle c.kept t in
    record {
      thread =
          if is_nil c.kept
          then close_handle handle (last_folder x.value.absolute_path h) t'
          else t';
      signals = c.signals;
      closes = if is_nil c.kept then handle ∷ [] else [];
    }

abbrev pub on_handle : FileSystem → Option ℕ → Thread → Woken
on_handle fs none t = asleep t
on_handle fs (some handle) t =
    if any (λ h. h == handle) t.handles
    then check_handle fs handle (infos_of handle t) t
    else asleep t

-- One round of run, on the handles that were waited for and the answer `r` of the wait: 0 is the
-- event of the thread, and whatever is no place in the list is a time-out or an error.
unfoldable pub wake : FileSystem → List ℕ → ℕ → Thread → Woken
unfolding check_each
wake fs waited r t =
    if r == 0
    then (if t.msg == b'q'
        then asleep (record t { msg = 0; is_running = false })
        else asleep (record t { msg = 0 }))
    else on_handle fs (get_elem? waited r) t
