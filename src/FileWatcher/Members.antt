-- ===== src/FileWatcher/Members.antt =====
-- addPaths of the polling engine of client/qt/mfilesystemwatcher.cpp: what it refuses, and what the
-- lists of the watcher hold behind it.
use easysync.Prelude.{◌≡◌, refl, true, not, ◌&&◌, ◌||◌, List, [], ◌∷◌, arith, ap, filter}
use easysync.Text.{Text, text_eq, text_eq_iff}
use easysync.Client.Watcher.{is_in}
use easysync.Client.Watching.{is_in-add_path}
use easysync.FileWatcher.System.{FileSystem}
use easysync.FileWatcher.Polling.{Poller, Watched, poll_one, poll_each, poll_paths}

module _ (fs : FileSystem) where
  poll_each-refused :
      (paths : List Text) (p : Poller) (w : Watched)
      → (poll_each fs paths p w).refused ≡ filter (λ path. not (fs.exists path)) paths
  unfolding poll_each poll_one
  poll_each-refused [] p w = refl
  poll_each-refused (path ∷ paths) p w =
      ground (
        arith,
        poll_each-refused paths (poll_one fs path p w).poller (poll_one fs path p w).watched,
      )

  module _ (q : Text) where
    same_path : (path : Text) → text_eq q path ≡ true → fs.exists q ≡ fs.exists path
    same_path path e = ap fs.exists ((text_eq_iff q path).0 e)

    same_kind : (path : Text) → text_eq q path ≡ true → fs.is_dir q ≡ fs.is_dir path
    same_kind path e = ap fs.is_dir ((text_eq_iff q path).0 e)

    poll_one-directories :
        (path : Text) (p : Poller) (w : Watched)
        → is_in q (poll_one fs path p w).watched.directories
          ≡ (is_in q w.directories || (text_eq q path && (fs.exists q && fs.is_dir q)))
    unfolding poll_one
    poll_one-directories path p w =
        ground (arith, is_in-add_path q path w.directories, same_path path, same_kind path)

    poll_one-files :
        (path : Text) (p : Poller) (w : Watched)
        → is_in q (poll_one fs path p w).watched.files
          ≡ (is_in q w.files || (text_eq q path && (fs.exists q && not (fs.is_dir q))))
    unfolding poll_one
    poll_one-files path p w =
        ground (arith, is_in-add_path q path w.files, same_path path, same_kind path)

    poll_each-directories :
        (paths : List Text) (p : Poller) (w : Watched)
        → is_in q (poll_each fs paths p w).watched.directories
          ≡ (is_in q w.directories || (is_in q paths && (fs.exists q && fs.is_dir q)))
    unfolding poll_each
    poll_each-directories [] p w = ground arith
    poll_each-directories (path ∷ paths) p w =
        let r = poll_one fs path p w in
        ground (
          arith,
          poll_each-directories paths r.poller r.watched,
          poll_one-directories path p w,
          text_eq_iff q path,
        )

    poll_each-files :
        (paths : List Text) (p : Poller) (w : Watched)
        → is_in q (poll_each fs paths p w).watched.files
          ≡ (is_in q w.files || (is_in q paths && (fs.exists q && not (fs.is_dir q))))
    unfolding poll_each
    poll_each-files [] p w = ground arith
    poll_each-files (path ∷ paths) p w =
        let r = poll_one fs path p w in
        ground (
          arith,
          poll_each-files paths r.poller r.watched,
          poll_one-files path p w,
          text_eq_iff q path,
        )

    -- addPaths of the polling engine refuses exactly the paths that do not exist, in their
    -- order, and a path stands in the list of directories, or of files, afterwards exactly if
    -- it did before or is an added path that exists and is a directory, or no directory.
    pub poll_paths_lem :
        (paths : List Text) (p : Poller) (w : Watched)
        → ((poll_paths fs paths p w).refused ≡ filter (λ path. not (fs.exists path)) paths)
          × (is_in q (poll_paths fs paths p w).watched.directories
              ≡ (is_in q w.directories || (is_in q paths && (fs.exists q && fs.is_dir q))))
          × (is_in q (poll_paths fs paths p w).watched.files
              ≡ (is_in q w.files || (is_in q paths && (fs.exists q && not (fs.is_dir q)))))
    unfolding poll_paths
    poll_paths_lem paths p w =
        (poll_each-refused paths p w, poll_each-directories paths p w, poll_each-files paths p w)
