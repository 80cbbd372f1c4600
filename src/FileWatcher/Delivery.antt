-- ===== src/FileWatcher/Delivery.antt =====
-- The signals of the polling engine of client/qt/mfilesystemwatcher.cpp, and what the watcher does
-- when they are delivered (_q_fileChanged, _q_directoryChanged).
use easysync.Prelude.{
  ◌≡◌, refl, Bool, true, false, not, ◌&&◌, some, List, [], ◌∷◌, arith, ap, ◌∙◌, sym, any,
  any-append, subst,
}
use easysync.Text.{Text, text_eq, text_eq_iff}
use easysync.Client.Watcher.{is_in}
use easysync.Client.Watching.{is_in-filter}
use easysync.FileWatcher.Hash.{contains}
use easysync.FileWatcher.System.{FileSystem}
use easysync.FileWatcher.Notifying.{Signal, file_changed, directory_changed}
use easysync.FileWatcher.Polling.{Poller, rounds, timeout, slashed}
use easysync.FileWatcher.{Watcher, lists, on_signal, on_signals, on_timeout}
use easysync.FileWatcher.Synced.{IsSynced}
use easysync.FileWatcher.Rounds.{kept_lem, gone_lem, none_gone}

-- The signal takes the path out of the list of files, or out of that of directories.
abbrev drops_file : Text → Signal → Bool
drops_file q (file_changed path removed) = removed && text_eq q path
drops_file q (directory_changed path removed) = false

abbrev drops_directory : Text → Signal → Bool
drops_directory q (file_changed path removed) = false
drops_directory q (directory_changed path removed) = removed && text_eq q path

-- What the delivery of a signal leaves of the lists, and of the engine.
record Delivered (dropped_files dropped_directories : Text → Bool) (w w' : Watcher) : Type 0 where
  files : (q : Text) → is_in q w'.native.files ≡ (is_in q w.native.files && not (dropped_files q))
  directories :
      (q : Text)
      → is_in q w'.native.directories
        ≡ (is_in q w.native.directories && not (dropped_directories q))
  poller : w'.poller ≡ w.poller

delivered_path : (q path : Text) (l : List Text) → text_eq q path ≡ true → is_in q l ≡ is_in path l
delivered_path q path l e = ap (λ q. is_in q l) ((text_eq_iff q path).0 e)

on_signal-Delivered :
    (s : Signal) (w : Watcher)
    → Delivered (λ q. drops_file q s) (λ q. drops_directory q s) w (on_signal s w)
unfolding on_signal
on_signal-Delivered (file_changed path removed) w = record {
  files =
      λ q. ground (arith, is_in-filter q path w.native.files, delivered_path q path w.native.files);
  directories = λ q. ground arith;
  poller = ground arith;
}
on_signal-Delivered (directory_changed path removed) w = record {
  files = λ q. ground arith;
  directories = λ q.
      ground (
        arith,
        is_in-filter q path w.native.directories,
        delivered_path q path w.native.directories,
      );
  poller = ground arith;
}

on_signals-Delivered :
    (signals : List Signal) (w : Watcher)
    → Delivered
        (λ q. any (drops_file q) signals)
        (λ q. any (drops_directory q) signals)
        w
        (on_signals signals w)
on_signals-Delivered [] w = record {
  files = λ q. ground arith;
  directories = λ q. ground arith;
  poller = refl;
}
on_signals-Delivered (s ∷ signals) w =
    let one = on_signal-Delivered s w in
    let rest = on_signals-Delivered signals (on_signal s w) in
    record {
      files = λ q. ground (arith, one.files q, rest.files q);
      directories = λ q. ground (arith, one.directories q, rest.directories q);
      poller = rest.poller ∙ one.poller;
    }

module _ (fs : FileSystem) (p : Poller) (q : Text) where
  dropped_files :
      any (drops_file q) (timeout fs p).1 ≡ (contains text_eq q p.polled_files && not (fs.exists q))
  unfolding timeout
  dropped_files =
      any-append (drops_file q) (rounds fs file_changed (λ path. path) p.polled_files).signals
        (rounds fs directory_changed slashed p.polled_directories).signals
      ∙ ground (
        arith,
        gone_lem fs (λ path. path) q file_changed (drops_file q) (λ k b. refl) p.polled_files,
        none_gone fs slashed q directory_changed (drops_file q) (λ k b. refl) p.polled_directories,
      )

  dropped_directories :
      any (drops_directory q) (timeout fs p).1
      ≡ (contains text_eq q p.polled_directories && not (fs.exists (slashed q)))
  unfolding timeout
  dropped_directories =
      any-append (drops_directory q) (rounds fs file_changed (λ path. path) p.polled_files).signals
        (rounds fs directory_changed slashed p.polled_directories).signals
      ∙ ground (
        arith,
        none_gone fs (λ path. path) q file_changed (drops_directory q) (λ k b. refl) p.polled_files,
        gone_lem fs slashed q directory_changed (drops_directory q) (λ k b. refl)
            p.polled_directories,
      )

  kept_files :
      contains text_eq q (timeout fs p).0.polled_files
      ≡ (contains text_eq q p.polled_files && fs.exists q)
  unfolding timeout
  kept_files = kept_lem fs (λ path. path) q file_changed p.polled_files

  kept_directories :
      contains text_eq q (timeout fs p).0.polled_directories
      ≡ (contains text_eq q p.polled_directories && fs.exists (slashed q))
  unfolding timeout
  kept_directories = kept_lem fs slashed q directory_changed p.polled_directories

polled_lem :
    (fs : FileSystem) (p : Poller) (w : Watcher)
    → w.poller ≡ some p
    → on_timeout fs w ≡ on_signals (timeout fs p).1 (record w { poller = some (timeout fs p).0 })
unfolding on_timeout
polled_lem fs p w e = rw e refl

-- A path stays in the lists exactly if it still exists, and the engine keeps to the lists.
pub record Follows (fs : FileSystem) (p : Poller) (w w' : Watcher) : Type 0 where
  pub poller : w'.poller ≡ some (timeout fs p).0
  pub synced : IsSynced (timeout fs p).0 (lists w')
  pub files : (q : Text) → is_in q w'.native.files ≡ (is_in q w.native.files && fs.exists q)
  pub directories :
      (q : Text)
      → is_in q w'.native.directories ≡ (is_in q w.native.directories && fs.exists (slashed q))

on_signals-Follows :
    (fs : FileSystem) (p : Poller) (w w' : Watcher)
    → IsSynced p (lists w)
    → Delivered
        (λ q. any (drops_file q) (timeout fs p).1)
        (λ q. any (drops_directory q) (timeout fs p).1)
        (record w { poller = some (timeout fs p).0 })
        w'
    → Follows fs p w w'
on_signals-Follows fs p w w' s d = record {
  poller = d.poller;
  synced = record {
    directories = λ q. ground (
      arith,
      d.directories q,
      dropped_directories fs p q,
      kept_directories fs p q,
      s.directories q,
    );
    files = λ q. ground (arith, d.files q, dropped_files fs p q, kept_files fs p q, s.files q);
  };
  files = λ q. ground (arith, d.files q, dropped_files fs p q, s.files q);
  directories = λ q. ground (arith, d.directories q, dropped_directories fs p q, s.directories q);
}

-- When the timer of a polling engine that is synced with the lists of its watcher has run out and
-- its signals are delivered, exactly those paths of each list are left that exist, a directory with
-- a slash behind it, and the engine is the one that timeout leaves and synced with the lists again.
pub on_timeout-Follows :
    (fs : FileSystem) (p : Poller) (w : Watcher)
    → w.poller ≡ some p
    → IsSynced p (lists w)
    → Follows fs p w (on_timeout fs w)
on_timeout-Follows fs p w e s = subst (Follows fs p w) (sym (polled_lem fs p w e)) (
    on_signals-Follows fs p w _ s
      (on_signals-Delivered (timeout fs p).1 (record w { poller = some (timeout fs p).0 })))
