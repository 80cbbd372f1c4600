-- ===== src/FileWatcher/Synced.antt =====
-- The polling engine of client/qt/mfilesystemwatcher.cpp and the lists of the watcher: both know of the
-- same paths; and what removePaths takes out of them.
use easysync.Prelude.{◌≡◌, refl, false, not, ap, ◌&&◌, List, [], ◌∷◌, arith, ◌∙◌, if_intro}
use easysync.Text.{Text, text_eq, text_eq_iff}
use easysync.Server.Lists.{remove_all}
use easysync.Client.Watcher.{is_in}
use easysync.Client.Watching.{is_in-add_path, is_in-filter}
use easysync.FileWatcher.Hash.{Hash, contains, insert, erase, contains-insert, contains-erase}
use easysync.FileWatcher.System.{FileSystem}
use easysync.FileWatcher.Thread.{is_nil}
use easysync.FileWatcher.Polling.{
  FileInfo, Poller, Watched, Polled, poll_one, poll_each, poll_paths, append_new, drop_one,
  drop_each, drop_paths,
}

-- A path is polled as a directory or as a file exactly if it stands in that list.
pub record IsSynced (p : Poller) (w : Watched) : Type 0 where
  pub directories :
      (path : Text) → contains text_eq path p.polled_directories ≡ is_in path w.directories
  pub files : (path : Text) → contains text_eq path p.polled_files ≡ is_in path w.files

added_alike :
    (new : Text) (i : FileInfo) (h : Hash Text FileInfo) (paths : List Text)
    → ((path : Text) → contains text_eq path h ≡ is_in path paths)
    → (path : Text)
    → contains text_eq path (insert text_eq new i h) ≡ is_in path (append_new paths new)
added_alike new i h paths s path =
    contains-insert text_eq text_eq_iff new path i h
    ∙ ground
        (arith, s path, is_in-add_path path new paths, text_eq_iff new path, text_eq_iff path new)

dropped_alike :
    (gone : Text) (h : Hash Text FileInfo) (paths : List Text)
    → ((path : Text) → contains text_eq path h ≡ is_in path paths)
    → (path : Text)
    → contains text_eq path (erase text_eq gone h) ≡ is_in path (remove_all text_eq paths gone)
dropped_alike gone h paths s path =
    contains-erase text_eq text_eq_iff gone path h
    ∙ ground
        (arith, s path, is_in-filter path gone paths, text_eq_iff gone path, text_eq_iff path gone)

abbrev Synced : Polled → Type 0
Synced r = IsSynced r.poller r.watched

poll_one-Synced :
    (fs : FileSystem) (path : Text) (p : Poller) (w : Watched)
    → IsSynced p w
    → Synced (poll_one fs path p w)
unfolding poll_one
poll_one-Synced fs path p w s =
    if_intro Synced (not (fs.exists path)) _ _ (λ _. s)
      (λ _.
        if_intro Synced (fs.is_dir path) _ _
          (λ _. record {
            directories = added_alike path _ p.polled_directories w.directories s.directories;
            files = s.files;
          })
          (λ _. record {
            directories = s.directories;
            files = added_alike path _ p.polled_files w.files s.files;
          }))

poll_each-Synced :
    (fs : FileSystem) (paths : List Text) (p : Poller) (w : Watched)
    → IsSynced p w
    → Synced (poll_each fs paths p w)
unfolding poll_each
poll_each-Synced fs [] p w s = s
poll_each-Synced fs (path ∷ paths) p w s =
    let r = poll_one fs path p w in
    let s' = poll_each-Synced fs paths r.poller r.watched (poll_one-Synced fs path p w s) in
    record { directories = s'.directories; files = s'.files }

pub poll_paths-IsSynced :
    (fs : FileSystem) (paths : List Text) (p : Poller) (w : Watched)
    → IsSynced p w
    → IsSynced (poll_paths fs paths p w).poller (poll_paths fs paths p w).watched
unfolding poll_paths
poll_paths-IsSynced fs paths p w s =
    let s' = poll_each-Synced fs paths p w s in
    record { directories = s'.directories; files = s'.files }

drop_one-Synced :
    (path : Text) (p : Poller) (w : Watched) → IsSynced p w → Synced (drop_one path p w)
unfolding drop_one
drop_one-Synced path p w s =
    if_intro Synced (contains text_eq path p.polled_directories) _ _
      (λ _. record {
        directories = dropped_alike path p.polled_directories w.directories s.directories;
        files = s.files;
      })
      (λ _.
        if_intro Synced (contains text_eq path p.polled_files) _ _
          (λ _. record {
            directories = s.directories;
            files = dropped_alike path p.polled_files w.files s.files;
          })
          (λ _. s))

drop_each-Synced :
    (paths : List Text) (p : Poller) (w : Watched) → IsSynced p w → Synced (drop_each paths p w)
unfolding drop_each
drop_each-Synced [] p w s = s
drop_each-Synced (path ∷ paths) p w s =
    let r = drop_one path p w in
    let s' = drop_each-Synced paths r.poller r.watched (drop_one-Synced path p w s) in
    record { directories = s'.directories; files = s'.files }

-- So does the whole of removePaths.
drop_paths-IsSynced :
    (paths : List Text) (p : Poller) (w : Watched)
    → IsSynced p w
    → IsSynced (drop_paths paths p w).poller (drop_paths paths p w).watched
unfolding drop_paths
drop_paths-IsSynced paths p w s =
    let r = drop_each paths p w in
    let s' = drop_each-Synced paths p w s in
    if_intro Synced (is_nil r.poller.polled_files && is_nil r.poller.polled_directories) _ _
      (λ _. record { directories = s'.directories; files = s'.files }) (λ _. s')

drop_one-directories :
    (q path : Text) (p : Poller) (w : Watched)
    → IsSynced p w
    → is_in q (drop_one path p w).watched.directories
      ≡ (is_in q w.directories && not (text_eq q path))
unfolding drop_one
drop_one-directories q path p w s = ground (
  arith,
  s.directories path,
  is_in-filter q path w.directories,
  text_eq_iff q path,
  text_eq_iff path q,
)

drop_one-files :
    (q path : Text) (p : Poller) (w : Watched)
    → IsSynced p w
    → (is_in q w.directories && is_in q w.files) ≡ false
    → is_in q (drop_one path p w).watched.files ≡ (is_in q w.files && not (text_eq q path))
unfolding drop_one
drop_one-files q path p w s apart = ground (
  arith,
  s.directories path,
  s.files path,
  apart,
  is_in-filter q path w.files,
  text_eq_iff q path,
  text_eq_iff path q,
)

drop_each-directories :
    (q : Text) (paths : List Text) (p : Poller) (w : Watched)
    → IsSynced p w
    → is_in q (drop_each paths p w).watched.directories
      ≡ (is_in q w.directories && not (is_in q paths))
unfolding drop_each
drop_each-directories q [] p w s = ground arith
drop_each-directories q (path ∷ paths) p w s =
    let r = drop_one path p w in
    ground (
      arith,
      drop_each-directories q paths r.poller r.watched (drop_one-Synced path p w s),
      drop_one-directories q path p w s,
    )

drop_each-files :
    (q : Text) (paths : List Text) (p : Poller) (w : Watched)
    → IsSynced p w
    → (is_in q w.directories && is_in q w.files) ≡ false
    → is_in q (drop_each paths p w).watched.files ≡ (is_in q w.files && not (is_in q paths))
unfolding drop_each
drop_each-files q [] p w s apart = ground arith
drop_each-files q (path ∷ paths) p w s apart =
    let r = drop_one path p w in
    let still : (is_in q r.watched.directories && is_in q r.watched.files) ≡ false =
      ground (arith, drop_one-directories q path p w s, drop_one-files q path p w s apart, apart) in
    ground (
      arith,
      drop_each-files q paths r.poller r.watched (drop_one-Synced path p w s) still,
      drop_one-files q path p w s apart,
    )

-- removePaths of the polling engine, where the polled directories and files are the same as the two
-- lists of the watcher, keeps them the same; a path is listed as a directory afterwards exactly if
-- it was before and is none of the removed paths; and so for a path listed as a file, if it is not
-- in both lists before.
pub drop_paths_lem :
    (q : Text) (paths : List Text) (p : Poller) (w : Watched)
    → IsSynced p w
    → (is_in q w.directories && is_in q w.files) ≡ false
    → let r = drop_paths paths p w in
      IsSynced r.poller r.watched
      × (is_in q r.watched.directories ≡ (is_in q w.directories && not (is_in q paths)))
      × (is_in q r.watched.files ≡ (is_in q w.files && not (is_in q paths)))
unfolding drop_paths
drop_paths_lem q paths p w s apart =
    let r = drop_each paths p w in
    let empty = is_nil r.poller.polled_files && is_nil r.poller.polled_directories in
    let lists : (drop_paths paths p w).watched ≡ r.watched =
      if_intro (λ (x : Polled). x.watched ≡ r.watched) empty _ _ (λ _. refl) (λ _. refl) in
    (
      drop_paths-IsSynced paths p w s,
      ap (λ (x : Watched). is_in q x.directories) lists ∙ drop_each-directories q paths p w s,
      ap (λ (x : Watched). is_in q x.files) lists ∙ drop_each-files q paths p w s apart,
    )
