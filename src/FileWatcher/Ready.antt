-- ===== src/FileWatcher/Ready.antt =====
-- addPaths of client/qt/mfilesystemwatcher_win.cpp and the state of the engine.
use easysync.Prelude.{
  ℕ, ◌≡◌, refl, Bool, false, not, Option, none, some, List, [], ◌∷◌, ◌++◌, if◌then◌else◌, subst,
  arith, All, All-of-All, if_intro,
}
use easysync.Text.{Text}
use easysync.Client.Watcher.{is_in}
use easysync.FileWatcher.System.{FileSystem, normal_path}
use easysync.FileWatcher.Thread.{PathInfo, State}
use easysync.FileWatcher.Adding.{
  Request, Search, absent, at_thread, place_handle, insert_known, grant, after_search, list_path,
  add_one, add_paths, request_of,
}
use easysync.FileWatcher.Good.{IsGood, IsGood-unanswered, is_granted, NoRepeat}
use easysync.FileWatcher.Placing.{GoodSearch, insert_known-GoodSearch, place_handle-IsGood}

-- The state of the engine: good threads, and handles to come that are different from one another and
-- from the events.
pub record IsReady (event : ℕ) (s : State) : Type 0 where
  pub good : All (IsGood s.granted) s.threads
  pub once : NoRepeat s.granted
  pub not_event : is_granted event s.granted ≡ false

module _ (event : ℕ) where
  -- The two lists, and the handles that were closed, do not count.
  pub IsReady-listed :
      (s : State) (closed : List ℕ) (files directories : List Text)
      → IsReady event s
      → IsReady event (record s { closed = closed; files = files; directories = directories })
  IsReady-listed s closed files directories r = record {
    good = r.good;
    once = r.once;
    not_event = r.not_event;
  }

  list_path-IsReady : (i : PathInfo) (s : State) → IsReady event s → IsReady event (list_path i s)
  list_path-IsReady i s r =
      if_intro (IsReady event) i.is_dir _ _
        (λ _. IsReady-listed s s.closed s.files (s.directories ++ i.path ∷ []) r)
        (λ _. IsReady-listed s s.closed (s.files ++ i.path ∷ []) s.directories r)

  grant-IsReady :
      (q : Request) (g : List (Option ℕ)) (s : State)
      → s.granted ≡ g
      → IsReady event s
      → IsReady event (grant event q g s).1
  grant-IsReady q [] s p r = r
  grant-IsReady q (none ∷ g) s p r = record {
    good =
        All-of-All s.threads (IsGood-unanswered g) (subst (λ g. All (IsGood g) s.threads) p r.good);
    once = subst NoRepeat p r.once;
    not_event = subst (λ g. is_granted event g ≡ false) p r.not_event;
  }
  grant-IsReady q (some k ∷ g) s p r =
      let good = subst (λ g. All (IsGood g) s.threads) p r.good in
      let once = subst NoRepeat p r.once in
      let not_event = subst (λ g. is_granted event g ≡ false) p r.not_event in
      let threads = place_handle event q k s.threads in
      list_path-IsReady q.info
        (record s { granted = g; given = s.given ++ k ∷ []; threads = threads })
        (record {
          good = place_handle-IsGood g q k once.0 event s.threads not_event good;
          once = once.1;
          not_event = ground arith;
        })

  after_search-IsReady :
      (q : Request) (x : Search) (s : State)
      → IsReady event s
      → GoodSearch s.granted x
      → IsReady event (after_search event q x s).1
  after_search-IsReady q absent s r a = grant-IsReady q s.granted s refl r
  after_search-IsReady q (at_thread new ts) s r a =
      let r' : IsReady event (record s { threads = ts }) = record {
        good = a;
        once = r.once;
        not_event = r.not_event;
      } in
      if_intro (IsReady event) new _ _
        (λ _. list_path-IsReady q.info (record s { threads = ts }) r') (λ _. r')

  pub add_one-IsReady :
      (fs : FileSystem) (path : Text) (s : State)
      → IsReady event s
      → IsReady event (add_one fs event path s).1
  unfolding add_one
  add_one-IsReady fs path s r =
      let q = request_of fs path in
      let found = insert_known q s.threads in
      let P = λ (v : Bool × State). IsReady event v.1 in
      let added =
        after_search-IsReady q found s r (insert_known-GoodSearch s.granted q s.threads r.good) in
      if_intro P (not (fs.exists (fs.to_lower (normal_path path)))) (false, s) _ (λ _. r)
        (λ _.
          if_intro P (is_in path (if q.info.is_dir then s.directories else s.files)) (false, s)
            (after_search event q found s) (λ _. r) (λ _. added))

  pub add_paths-IsReady :
      (fs : FileSystem) (paths : List Text) (s : State)
      → IsReady event s
      → IsReady event (add_paths fs event paths s).1
  unfolding add_paths
  add_paths-IsReady fs [] s r = r
  add_paths-IsReady fs (path ∷ paths) s r =
      add_paths-IsReady fs paths (add_one fs event path s).1 (add_one-IsReady fs path s r)
