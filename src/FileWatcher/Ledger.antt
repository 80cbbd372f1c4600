-- ===== src/FileWatcher/Ledger.antt =====
-- The handles that Windows gives an engine of client/qt/mfilesystemwatcher_win.cpp, over its whole life.
use easysync.Prelude.{
  ℕ, ◌+◌, ◌≤◌, ◌≡◌, ◌≢◌, Bool, false, not, Option, none, some, List, [], ◌∷◌, ◌++◌, ==_iff,
  if◌then◌else◌, ◌∙◌, sym, subst, arith, All, All-of-All, All-filter, if_intro, filter,
}
use easysync.Text.{Text, text_eq}
use easysync.Server.Departure.{count}
use easysync.Server.Lists.{remove_all}
use easysync.Client.Watcher.{is_in}
use easysync.FileWatcher.System.{FileSystem, normal_path}
use easysync.FileWatcher.Thread.{
  PathInfo, Thread, State, nat_eq, new_engine, delete_thread, delete_each, delete_engine,
}
use easysync.FileWatcher.Adding.{
  Request, Search, absent, at_thread, place_handle, insert_known, grant, after_search, list_path,
  add_one, add_paths, request_of,
}
use easysync.FileWatcher.Removing.{remove_at, remove_one, remove_each, sweep, remove_paths}
use easysync.FileWatcher.Notifying.{wake}
use easysync.FileWatcher.Good.{is_granted, NoRepeat}
use easysync.FileWatcher.Ready.{IsReady, add_one-IsReady}
use easysync.FileWatcher.Handles.{HasEvent, Moves, Moves-after, count-append}
use easysync.FileWatcher.Moving.{MovesSearch, insert_known-MovesSearch, place_handle-Moves}
use easysync.FileWatcher.Closing.{remove_at-Moves, wake-Passes, count-delete_each}
use easysync.FileWatcher.Calls.{
  Step, adds, removes, adds_one, removes_one, sweeps, wakes, grants_next, Reaches, begin, then_step,
  remove_one-IsReady, Reaches-IsReady,
}

-- Every handle that Windows has given is with a thread or has been closed, as often as it was given.
pub record IsBalanced (event : ℕ) (s : State) : Type 0 where
  pub events : All (HasEvent event) s.threads
  pub sums :
      (k : ℕ)
      → count nat_eq k s.closed + count nat_eq k (delete_each s.threads) ≡ count nat_eq k s.given

module _ (event : ℕ) where
  moved :
      (given closed : List ℕ) (s s' : State)
      → IsBalanced event s
      → Moves event given closed s.threads s'.threads
      → ((k : ℕ) → count nat_eq k s'.closed ≡ count nat_eq k s.closed + count nat_eq k closed)
      → ((k : ℕ) → count nat_eq k s'.given ≡ count nat_eq k s.given + count nat_eq k given)
      → IsBalanced event s'
  moved given closed s s' b m c g = record {
    events = m.events_kept;
    sums = λ k. omega (arith, b.sums k, m.sums k, c k, g k);
  }

  listed :
      (s : State) (granted : List (Option ℕ)) (files directories : List Text)
      → IsBalanced event s
      → IsBalanced event (record s { granted = granted; files = files; directories = directories })
  listed s granted files directories b = record { events = b.events; sums = b.sums }

  list_path-IsBalanced :
      (i : PathInfo) (s : State) → IsBalanced event s → IsBalanced event (list_path i s)
  list_path-IsBalanced i s b =
      if_intro (IsBalanced event) i.is_dir _ _
        (λ _. listed s s.granted s.files (s.directories ++ i.path ∷ []) b)
        (λ _. listed s s.granted (s.files ++ i.path ∷ []) s.directories b)

  grant-IsBalanced :
      (q : Request) (g : List (Option ℕ)) (s : State)
      → is_granted event g ≡ false
      → IsBalanced event s
      → IsBalanced event (grant event q g s).1
  grant-IsBalanced q [] s n b = b
  grant-IsBalanced q (none ∷ g) s n b = listed s g s.files s.directories b
  grant-IsBalanced q (some k ∷ g) s n b =
      let other : k ≢ event = λ same. ground (arith, ==_iff k event) in
      let s' = record s {
        granted = g;
        given = s.given ++ k ∷ [];
        threads = place_handle event q k s.threads;
      } in
      list_path-IsBalanced q.info s' (
        moved (k ∷ []) [] s s' b (place_handle-Moves event q k s.threads other b.events)
          (λ j. omega arith) (λ j. count-append j s.given (k ∷ [])))

  after_search-IsBalanced :
      (q : Request) (x : Search) (s : State)
      → is_granted event s.granted ≡ false
      → IsBalanced event s
      → MovesSearch event s.threads x
      → IsBalanced event (after_search event q x s).1
  after_search-IsBalanced q absent s n b m = grant-IsBalanced q s.granted s n b
  after_search-IsBalanced q (at_thread new ts) s n b m =
      let s' = record s { threads = ts } in
      let b' : IsBalanced event s' = moved [] [] s s' b m (λ j. omega arith) (λ j. omega arith) in
      if_intro (IsBalanced event) new _ _ (λ _. list_path-IsBalanced q.info s' b') (λ _. b')

  add_one-IsBalanced :
      (fs : FileSystem) (path : Text) (s : State)
      → is_granted event s.granted ≡ false
      → IsBalanced event s
      → IsBalanced event (add_one fs event path s).1
  unfolding add_one
  add_one-IsBalanced fs path s n b =
      let q = request_of fs path in
      let found = insert_known q s.threads in
      let P = λ (v : Bool × State). IsBalanced event v.1 in
      let added =
        after_search-IsBalanced q found s n b
          (insert_known-MovesSearch event q s.threads b.events) in
      if_intro P (not (fs.exists (fs.to_lower (normal_path path)))) (false, s) _ (λ _. b)
        (λ _.
          if_intro P (is_in path (if q.info.is_dir then s.directories else s.files)) (false, s)
            (after_search event q found s) (λ _. b) (λ _. added))

  add_paths-IsBalanced :
      (fs : FileSystem) (paths : List Text) (s : State)
      → IsReady event s
      → IsBalanced event s
      → IsBalanced event (add_paths fs event paths s).1
  unfolding add_paths
  add_paths-IsBalanced fs [] s r b = b
  add_paths-IsBalanced fs (path ∷ paths) s r b =
      add_paths-IsBalanced fs paths (add_one fs event path s).1 (add_one-IsReady event fs path s r)
        (add_one-IsBalanced fs path s r.not_event b)

  remove_one-IsBalanced :
      (fs : FileSystem) (path : Text) (s : State)
      → IsReady event s
      → IsBalanced event s
      → IsBalanced event (remove_one fs path s).1
  unfolding remove_one
  remove_one-IsBalanced fs path s r b =
      let file = fs.to_lower (normal_path path) in
      let key = fs.absolute_file_path file in
      let x = remove_at key (fs.absolute_path file) key s.threads in
      let s' = record s { threads = x.threads; closed = s.closed ++ x.closes } in
      let m =
        remove_at-Moves event key (fs.absolute_path file) key s.threads
          (All-of-All s.threads (λ t y. y.sound) r.good) b.events in
      let b' : IsBalanced event s' =
        moved [] x.closes s s' b m (λ k. count-append k s.closed x.closes) (λ k. omega arith) in
      if_intro (IsBalanced event) x.was_there _ _
        (λ _.
          listed s' s.granted (remove_all text_eq s.files path)
            (remove_all text_eq s.directories path) b')
        (λ _. b')

  remove_each-IsBalanced :
      (fs : FileSystem) (paths : List Text) (s : State)
      → IsReady event s
      → IsBalanced event s
      → IsBalanced event (remove_each fs paths s).1
  unfolding remove_each
  remove_each-IsBalanced fs [] s r b = b
  remove_each-IsBalanced fs (path ∷ paths) s r b =
      remove_each-IsBalanced fs paths (remove_one fs path s).1
        (remove_one-IsReady event fs path s r) (remove_one-IsBalanced fs path s r b)

  sweep-IsBalanced : (s : State) → IsBalanced event s → IsBalanced event (sweep s)
  unfolding sweep
  sweep-IsBalanced s b =
      let stopped = filter (λ (t : Thread). not t.is_running) s.threads in
      record {
        events = All-filter (HasEvent event) (λ (t : Thread). t.is_running) s.threads b.events;
        sums = λ k. omega (
          arith,
          count-append k s.closed (delete_each stopped),
          count-delete_each event k s.threads,
          b.sums k,
        );
      }

  remove_paths-IsBalanced :
      (fs : FileSystem) (paths : List Text) (s : State)
      → IsReady event s
      → IsBalanced event s
      → IsBalanced event (remove_paths fs paths s).1
  unfolding remove_paths
  remove_paths-IsBalanced fs paths s r b =
      sweep-IsBalanced (remove_each fs paths s).1 (remove_each-IsBalanced fs paths s r b)

  Step-IsBalanced :
      {s s' : State} → Step event s s' → IsReady event s → IsBalanced event s → IsBalanced event s'
  Step-IsBalanced (adds {s = s} fs paths) r b = add_paths-IsBalanced fs paths s r b
  Step-IsBalanced (removes {s = s} fs paths) r b = remove_paths-IsBalanced fs paths s r b
  Step-IsBalanced (adds_one {s = s} fs path) r b = add_one-IsBalanced fs path s r.not_event b
  Step-IsBalanced (removes_one {s = s} fs path) r b = remove_one-IsBalanced fs path s r b
  Step-IsBalanced (sweeps {s = s}) r b = sweep-IsBalanced s b
  Step-IsBalanced (wakes {s = s} fs waited n before after t e) r b =
      let w = wake fs waited n t in
      let a = subst (All (HasEvent event)) e b.events in
      let m =
        Moves-after event [] w.closes before after t w.thread a (wake-Passes event fs waited n t) in
      moved [] w.closes s _ b
        (subst (λ ts. Moves event [] w.closes ts (before ++ w.thread ∷ after)) (sym e) m)
        (λ k. count-append k s.closed w.closes) (λ k. omega arith)
  Step-IsBalanced (grants_next {s = s} g once not_event free) r b =
      listed s g s.files s.directories b

  Reaches-IsBalanced :
      (granted : List (Option ℕ)) (s : State)
      → NoRepeat granted
      → is_granted event granted ≡ false
      → Reaches event (new_engine granted) s
      → IsBalanced event s
  unfolding delete_thread
  Reaches-IsBalanced granted _ once not_event begin = record {
    events = tt;
    sums = λ k. omega arith;
  }
  Reaches-IsBalanced granted _ once not_event (then_step {s = s} x y) =
      Step-IsBalanced y (Reaches-IsReady event granted s once not_event x)
        (Reaches-IsBalanced granted s once not_event x)

  -- Whatever calls of addPaths and removePaths, rounds of the threads and grants of handles an
  -- engine has seen, where the rounds may also come between the paths of a call, but not into its
  -- work on one path, and no handle is granted twice or while it is open, no handle has been
  -- closed more often than it was given; and once the engine is deleted, each has been closed
  -- exactly as often as it was given: none is leaked, and none is closed twice.
  pub delete_engine-given :
      (granted : List (Option ℕ)) (s : State)
      → NoRepeat granted
      → is_granted event granted ≡ false
      → Reaches event (new_engine granted) s
      → (k : ℕ)
      → (count nat_eq k s.closed ≤ count nat_eq k s.given)
        × (count nat_eq k (delete_engine s).closed ≡ count nat_eq k s.given)
  unfolding delete_engine
  delete_engine-given granted s once not_event x k =
      let sum = (Reaches-IsBalanced granted s once not_event x).sums k in
      (omega (arith, sum), count-append k s.closed (delete_each s.threads) ∙ sum)
