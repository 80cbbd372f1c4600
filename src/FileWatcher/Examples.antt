-- ===== src/FileWatcher/Examples.antt =====
-- The theorems on the watcher of client/qt on a concrete disk.
use easysync.Prelude.{ℕ, ◌≡◌, ◌≤◌, refl, false, ◌||◌, Option, none, some, List, [], ◌∷◌, All}
use easysync.Text.{Text, codes, text_eq}
use easysync.FileWatcher.Ledger.{delete_engine-given}
use easysync.Server.Departure.{count}
use easysync.FileWatcher.System.{FileSystem, Stat}
use easysync.FileWatcher.Thread.{State, new_engine, nat_eq, delete_engine}
use easysync.FileWatcher.Adding
use easysync.FileWatcher.Removing
use easysync.FileWatcher.Polling.{Watched, Polled, new_poller, poll_paths, drop_paths}
use easysync.FileWatcher.Sound.{IsSound}
use easysync.FileWatcher.Calls.{adds, removes, begin, then_step, Reaches-IsSound}
use easysync.FileWatcher.Synced.{IsSynced, poll_paths-IsSynced, drop_paths_lem}
use easysync.Client.Watcher.{is_in}
use easysync.FileWatcher.Members.{poll_paths_lem}
use easysync.FileWatcher.Delivery.{Follows, on_timeout-Follows}
use easysync.FileWatcher.Trip.{stop_windows_watcher-install_windows_watcher}
use easysync.FileWatcher.{
  Watcher, new_watcher, install_windows_watcher, stop_windows_watcher, on_timeout,
}

abbrev stat : Stat
stat = record { owner_id = 1; group_id = 1; permissions = 6; last_modified = 10 }

-- A folder with a note in it.
abbrev notes : Text
notes = codes "notes"

abbrev note : Text
note = codes "notes/a"

abbrev disk : FileSystem
disk = record {
  exists = λ path. text_eq path notes || text_eq path note;
  is_dir = λ path. text_eq path notes;
  absolute_file_path = λ path. path;
  absolute_path = λ path. notes;
  stat = λ path. stat;
  entries = λ path. codes "a" ∷ [];
  to_lower = λ path. path;
}

-- The disk when the folder and the note are gone.
abbrev empty_disk : FileSystem
empty_disk = record disk { exists = λ path. false }

abbrev both_paths : List Text
both_paths = notes ∷ note ∷ []

abbrev nothing : Watched
nothing = record { files = []; directories = [] }

nothing-IsSynced : IsSynced new_poller nothing
nothing-IsSynced = record { directories = λ path. refl; files = λ path. refl }

abbrev polled : Polled
polled = poll_paths disk both_paths new_poller nothing

polled-IsSynced : IsSynced polled.poller polled.watched
polled-IsSynced = poll_paths-IsSynced disk both_paths new_poller nothing nothing-IsSynced

abbrev watcher : Watcher
watcher = record (new_watcher []) {
  poller = some polled.poller;
  native = record (new_engine []) {
    files = polled.watched.files;
    directories = polled.watched.directories;
  };
}

poll_paths_lem_example :
    ((poll_paths empty_disk both_paths new_poller nothing).refused ≡ both_paths)
    × (is_in notes (poll_paths empty_disk both_paths new_poller nothing).watched.directories
        ≡ false)
    × (is_in notes (poll_paths empty_disk both_paths new_poller nothing).watched.files ≡ false)
poll_paths_lem_example = poll_paths_lem empty_disk notes both_paths new_poller nothing

-- The file that is removed is not listed any more.
drop_paths_lem_example :
    let r = drop_paths (note ∷ []) polled.poller polled.watched in
    IsSynced r.poller r.watched
    × (is_in note r.watched.directories ≡ false)
    × (is_in note r.watched.files ≡ false)
unfolding poll_paths
drop_paths_lem_example =
    drop_paths_lem note (note ∷ []) polled.poller polled.watched polled-IsSynced refl

on_timeout-Follows_example :
    Follows empty_disk polled.poller watcher (on_timeout empty_disk watcher)
on_timeout-Follows_example =
    on_timeout-Follows empty_disk polled.poller watcher refl
      (record { directories = polled-IsSynced.directories; files = polled-IsSynced.files })

-- Windows gives 7, then 8, then refuses; the event is 3.
abbrev granted : List (Option ℕ)
granted = some 7 ∷ some 8 ∷ none ∷ []

-- Both paths are watched.
abbrev watching : State
watching = (Adding.add_paths disk 3 both_paths (new_engine granted)).1

Reaches-IsSound_example : All IsSound (Removing.remove_paths disk (notes ∷ []) watching).1.threads
Reaches-IsSound_example =
    Reaches-IsSound 3 granted (Removing.remove_paths disk (notes ∷ []) watching).1
      (refl, (refl, tt)) refl
      (then_step (then_step begin (adds disk both_paths)) (removes disk (notes ∷ [])))

-- Once one of the two paths is taken out, and again when the engine is gone.
delete_engine-given_example :
    let s = (Removing.remove_paths disk (notes ∷ []) watching).1 in
    (count nat_eq 7 s.closed ≤ 1) × (count nat_eq 7 (delete_engine s).closed ≡ 1)
unfolding Adding.add_paths Removing.remove_paths
delete_engine-given_example =
    delete_engine-given 3 granted (Removing.remove_paths disk (notes ∷ []) watching).1
      (refl, (refl, tt)) refl
      (then_step (then_step begin (adds disk both_paths)) (removes disk (notes ∷ []))) 7

stop_windows_watcher-install_windows_watcher_example :
    ((install_windows_watcher disk 3 notes (new_watcher granted)).native.directories ≡ notes ∷ [])
    × ((install_windows_watcher disk 3 notes (new_watcher granted)).warnings ≡ [])
    × (stop_windows_watcher disk notes (install_windows_watcher disk 3 notes (new_watcher granted))
        ≡ record (new_watcher (some 8 ∷ none ∷ [])) {
          native = record (new_engine (some 8 ∷ none ∷ [])) { given = 7 ∷ []; closed = 7 ∷ [] };
        })
stop_windows_watcher-install_windows_watcher_example =
    stop_windows_watcher-install_windows_watcher disk 3 7 (some 8 ∷ none ∷ []) notes refl refl refl
      refl
