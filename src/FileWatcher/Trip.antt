-- ===== src/FileWatcher/Trip.antt =====
-- The client on Windows: its folder goes into the watcher of client/qt and out again
-- (client/client.cpp, installWatcher and stopWatcher).
use easysync.Prelude.{
  ℕ, ◌≡◌, refl, true, false, Option, some, List, [], ◌∷◌, ◌==◌, ==_refl, ap, ◌∙◌, sym,
}
use easysync.Text.{Text, is_empty, text_eq_refl}
use easysync.FileWatcher.System.{FileSystem, normal_path}
use easysync.FileWatcher.Thread.{Thread, PathInfo, flags_for, State, new_engine, delete_thread}
use easysync.FileWatcher.Adding
use easysync.FileWatcher.Removing
use easysync.FileWatcher.{
  Watcher, failed_to_add, new_watcher, install_windows_watcher, stop_windows_watcher, warn,
}

module _ (fs : FileSystem) (event k : ℕ) (g : List (Option ℕ)) (dir : Text)
    (apart : (event == k) ≡ false) (named : is_empty dir ≡ false)
    (there : fs.exists (fs.to_lower (normal_path dir)) ≡ true)
    (folder : fs.is_dir (fs.to_lower (normal_path dir)) ≡ true) where
  abbrev pub installed : Watcher
  installed = install_windows_watcher fs event dir (new_watcher (some k ∷ g))

  abbrev file : Text
  file = fs.to_lower (normal_path dir)

  abbrev info : PathInfo
  info = record {
    absolute_path = fs.absolute_file_path file;
    path = dir;
    is_dir = true;
    stat = fs.stat file;
  }

  abbrev thread : Thread
  thread = record {
    handles = event ∷ k ∷ [];
    msg = b'@';
    handle_for_dir =
        record {
          key = fs.absolute_file_path file;
          value = record { handle = k; flags = flags_for true };
        }
        ∷ [];
    path_info_for_handle =
        record { key = k; value = record { key = fs.absolute_file_path file; value = info } ∷ [] }
        ∷ [];
    is_running = true;
  }

  abbrev watching : State
  watching = record {
    threads = thread ∷ [];
    granted = g;
    given = k ∷ [];
    closed = [];
    files = [];
    directories = dir ∷ [];
  }

  installed_lem : installed ≡ record (new_watcher g) { native = watching }
  unfolding install_windows_watcher new_watcher Adding.add_paths
  installed_lem = rw (named, there, folder) refl

  again_lem :
      install_windows_watcher fs event dir (record (new_watcher g) { native = watching })
      ≡ warn (failed_to_add (dir ∷ [])) (record (new_watcher g) { native = watching })
  unfolding install_windows_watcher new_watcher Adding.add_paths
  again_lem = rw (named, there, folder, text_eq_refl dir) refl

  stop_lem :
      stop_windows_watcher fs dir (record (new_watcher g) { native = watching })
      ≡ record (new_watcher g) {
        native = record (new_engine g) { given = k ∷ []; closed = k ∷ [] };
      }
  unfolding stop_windows_watcher new_watcher Removing.remove_paths delete_thread
  stop_lem =
      let same = text_eq_refl (fs.absolute_file_path file) in
      rw (named, same, ==_refl k, same) (rw (text_eq_refl dir) (rw apart refl))

  -- On Windows, where the client's folder is named and its normal form is a directory, and a
  -- handle is granted for it that is not the thread's event, a fresh watcher takes the folder in
  -- without a warning, and taking it out again closes the handle and leaves the watcher fresh.
  pub stop_windows_watcher-install_windows_watcher :
      (installed.native.directories ≡ dir ∷ [])
      × (installed.warnings ≡ [])
      × (stop_windows_watcher fs dir installed ≡ record (new_watcher g) {
        native = record (new_engine g) { given = k ∷ []; closed = k ∷ [] };
      })
  unfolding new_watcher
  stop_windows_watcher-install_windows_watcher = (
    ap (λ (w : Watcher). w.native.directories) installed_lem,
    ap (λ (w : Watcher). w.warnings) installed_lem,
    ap (stop_windows_watcher fs dir) installed_lem ∙ stop_lem,
  )

  -- A folder that is watched already.
  pub install_windows_watcher-twice :
      install_windows_watcher fs event dir installed ≡ warn (failed_to_add (dir ∷ [])) installed
  install_windows_watcher-twice =
      ap (install_windows_watcher fs event dir) installed_lem
      ∙ again_lem
      ∙ ap (warn (failed_to_add (dir ∷ []))) (sym installed_lem)
