-- ===== src/FileWatcher/Calls.antt =====
-- The states of the engine of client/qt/mfilesystemwatcher_win.cpp that sequences of calls and
-- notifications reach.
use easysync.Prelude.{
  ℕ, ◌≡◌, true, false, Option, List, [], ◌∷◌, ◌++◌, subst, All, All-of-All, All-filter, update-All,
  if_intro,
}
use easysync.Text.{Text, text_eq}
use easysync.Server.Lists.{remove_all}
use easysync.FileWatcher.System.{FileSystem, normal_path}
use easysync.FileWatcher.Thread.{Thread, State, new_engine}
use easysync.FileWatcher.Adding.{add_one, add_paths}
use easysync.FileWatcher.Removing.{remove_at, remove_one, remove_each, sweep, remove_paths}
use easysync.FileWatcher.Notifying.{wake}
use easysync.FileWatcher.Sound.{IsSound, is_open}
use easysync.FileWatcher.Good.{IsGood, is_granted, NoRepeat}
use easysync.FileWatcher.Ready.{IsReady, IsReady-listed, add_paths-IsReady, add_one-IsReady}
use easysync.FileWatcher.Dropping.{remove_at-IsGood, wake-IsGood}

module _ (event : ℕ) where
  pub remove_one-IsReady :
      (fs : FileSystem) (path : Text) (s : State)
      → IsReady event s
      → IsReady event (remove_one fs path s).1
  unfolding remove_one
  remove_one-IsReady fs path s r =
      let file = fs.to_lower (normal_path path) in
      let key = fs.absolute_file_path file in
      let x = remove_at key (fs.absolute_path file) key s.threads in
      let r' : IsReady event (record s { threads = x.threads; closed = s.closed ++ x.closes }) =
        record {
          good = remove_at-IsGood s.granted key (fs.absolute_path file) key s.threads r.good;
          once = r.once;
          not_event = r.not_event;
        } in
      if_intro (IsReady event) x.was_there _ _
        (λ _.
          IsReady-listed event _ _ (remove_all text_eq s.files path)
            (remove_all text_eq s.directories path) r')
        (λ _. r')

  pub remove_each-IsReady :
      (fs : FileSystem) (paths : List Text) (s : State)
      → IsReady event s
      → IsReady event (remove_each fs paths s).1
  unfolding remove_each
  remove_each-IsReady fs [] s r = r
  remove_each-IsReady fs (path ∷ paths) s r =
      remove_each-IsReady fs paths (remove_one fs path s).1 (remove_one-IsReady fs path s r)

  pub sweep-IsReady : (s : State) → IsReady event s → IsReady event (sweep s)
  unfolding sweep
  sweep-IsReady s r = record {
    good = All-filter (IsGood s.granted) (λ (t : Thread). t.is_running) s.threads r.good;
    once = r.once;
    not_event = r.not_event;
  }

  pub remove_paths-IsReady :
      (fs : FileSystem) (paths : List Text) (s : State)
      → IsReady event s
      → IsReady event (remove_paths fs paths s).1
  unfolding remove_paths
  remove_paths-IsReady fs paths s r =
      sweep-IsReady (remove_each fs paths s).1 (remove_each-IsReady fs paths s r)

  -- What can happen to an engine: the two calls, each with the disk of its moment, whole or path by
  -- path, where rounds of the threads may come in between, but not into the work on one path; a
  -- thread that wakes up; and new handles to come, which Windows has not given out or which have
  -- been closed since.
  pub data Step : State → State → Type 0 where
    adds : {s : State} (fs : FileSystem) (paths : List Text) → Step s (add_paths fs event paths s).1
    removes : {s : State} (fs : FileSystem) (paths : List Text) → Step s (remove_paths fs paths s).1
    adds_one : {s : State} (fs : FileSystem) (path : Text) → Step s (add_one fs event path s).1
    removes_one : {s : State} (fs : FileSystem) (path : Text) → Step s (remove_one fs path s).1
    sweeps : {s : State} → Step s (sweep s)
    wakes :
        {s : State} (fs : FileSystem) (waited : List ℕ) (r : ℕ) (before after : List Thread)
        (t : Thread)
        → s.threads ≡ before ++ t ∷ after
        → Step s (record s {
          threads = before ++ (wake fs waited r t).thread ∷ after;
          closed = s.closed ++ (wake fs waited r t).closes;
        })
    grants_next :
        {s : State} (g : List (Option ℕ))
        → NoRepeat g
        → is_granted event g ≡ false
        → ((k : ℕ)
            → is_granted k g ≡ true
            → All (λ (t : Thread). is_open k t.handles ≡ false) s.threads)
        → Step s (record s { granted = g })

  pub data Reaches (start : State) : State → Type 0 where
    begin : Reaches start start
    then_step : {s s' : State} → Reaches start s → Step s s' → Reaches start s'

  pub Step-IsReady : {s s' : State} → Step s s' → IsReady event s → IsReady event s'
  Step-IsReady (adds {s = s} fs paths) r = add_paths-IsReady event fs paths s r
  Step-IsReady (removes {s = s} fs paths) r = remove_paths-IsReady fs paths s r
  Step-IsReady (adds_one {s = s} fs path) r = add_one-IsReady event fs path s r
  Step-IsReady (removes_one {s = s} fs path) r = remove_one-IsReady fs path s r
  Step-IsReady (sweeps {s = s}) r = sweep-IsReady s r
  Step-IsReady (wakes {s = s} fs waited n before after t e) r = record {
    good =
        update-All (IsGood s.granted) before after t (wake fs waited n t).thread
          (subst (All (IsGood s.granted)) e r.good) (wake-IsGood s.granted fs waited n t);
    once = r.once;
    not_event = r.not_event;
  }
  Step-IsReady (grants_next {s = s} g once not_event free) r = record {
    good = renewed s.granted g s.threads r.good free;
    once = once;
    not_event = not_event;
  }
    where
      renewed :
          (g g' : List (Option ℕ)) (ts : List Thread)
          → All (IsGood g) ts
          → ((k : ℕ)
              → is_granted k g' ≡ true
              → All (λ (t : Thread). is_open k t.handles ≡ false) ts)
          → All (IsGood g') ts
      renewed g g' [] a h = tt
      renewed g g' (t ∷ ts) a h = (
        record { sound = a.0.sound; unused = λ k p. (h k p).0 },
        renewed g g' ts a.1 (λ k p. (h k p).1),
      )

  pub Reaches-IsReady :
      (granted : List (Option ℕ)) (s : State)
      → NoRepeat granted
      → is_granted event granted ≡ false
      → Reaches (new_engine granted) s
      → IsReady event s
  Reaches-IsReady granted _ once not_event begin = record {
    good = tt;
    once = once;
    not_event = not_event;
  }
  Reaches-IsReady granted _ once not_event (then_step {s = s} x y) =
      Step-IsReady y (Reaches-IsReady granted s once not_event x)

  -- Whatever calls of addPaths and removePaths, rounds of the threads and grants of handles an
  -- engine has seen, where the rounds may also come between the paths of a call, but not into its
  -- work on one path, and no handle is granted twice or while it is open, each of its threads is
  -- sound: it waits for at most 64 handles, the handle that it has for a folder is one of them
  -- and of no other folder, holds paths of that folder only, and a handle that it does not wait
  -- for holds no path.
  pub Reaches-IsSound :
      (granted : List (Option ℕ)) (s : State)
      → NoRepeat granted
      → is_granted event granted ≡ false
      → Reaches (new_engine granted) s
      → All IsSound s.threads
  Reaches-IsSound granted s once not_event x =
      All-of-All s.threads (λ t y. y.sound) (Reaches-IsReady granted s once not_event x).good
