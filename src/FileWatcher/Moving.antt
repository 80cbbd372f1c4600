-- ===== src/FileWatcher/Moving.antt =====
-- addPaths of client/qt/mfilesystemwatcher_win.cpp: which handles its rounds give to the threads.
use easysync.Prelude.{
  ℕ, ◌≡◌, ◌≢◌, refl, Bool, true, Option, none, some, List, [], ◌∷◌, ltb, length, ◌∙◌, arith, All,
  if_intro,
}
use easysync.Text.{text_eq}
use easysync.FileWatcher.Hash.{contains}
use easysync.FileWatcher.Thread.{
  Thread, max_wait_objects, infos_of, new_thread, wakeup, delete_thread,
}
use easysync.FileWatcher.Adding.{
  Request, Search, absent, at_thread, known_handle, flags_of, add_info, take_handle, place_handle,
  insert_known, found_at, behind,
}
use easysync.FileWatcher.Placing.{with_flags-eq-some}
use easysync.FileWatcher.Handles.{
  HasEvent, Passes, Passes-told, Passes-set_infos, Passes-take_handle, Moves, Moves-here,
  Moves-later, new_thread-HasEvent,
}

module _ (event : ℕ) where
  -- The message and the state of the thread do not count.
  pub Passes-retold :
      (given closed : List ℕ) (t t' : Thread) (m : ℕ) (b : Bool)
      → Passes event given closed t t'
      → Passes event given closed t (record t' { msg = m; is_running = b })
  Passes-retold given closed t t' m b p = record {
    event_kept = (Passes-told event t' m b p.event_kept).event_kept;
    sum = p.sum;
  }

  Passes-wakeup :
      (given closed : List ℕ) (t t' : Thread)
      → Passes event given closed t t'
      → Passes event given closed t (wakeup t')
  unfolding wakeup
  Passes-wakeup given closed t t' p = Passes-retold given closed t t' b'@' t'.is_running p

  -- What the first loop of addPaths leaves.
  abbrev pub MovesSearch : List Thread → Search → Type 0
  MovesSearch ts absent = Unit {0}
  MovesSearch ts (at_thread new ts') = Moves event [] [] ts ts'

  behind-MovesSearch :
      (t : Thread) (ts : List Thread) (x : Search)
      → HasEvent event t
      → MovesSearch ts x
      → MovesSearch (t ∷ ts) (behind t x)
  behind-MovesSearch t ts absent e m = tt
  behind-MovesSearch t ts (at_thread new ts') e m = Moves-later event [] [] t ts ts' e m

  found_at-MovesSearch :
      (q : Request) (o : Option ℕ) (t : Thread) (ts : List Thread) (later : Search)
      → known_handle q t ≡ o
      → HasEvent event t
      → All (HasEvent event) ts
      → MovesSearch ts later
      → MovesSearch (t ∷ ts) (found_at q o t ts later)
  found_at-MovesSearch q none t ts later p e a m = behind-MovesSearch t ts later e m
  found_at-MovesSearch q (some k) t ts later p e a m =
      let (h, found, same) = with_flags-eq-some [] (flags_of q) k _ p in
      let other : k ≢ event = λ x. e.no_folder q.info.absolute_path h found (same ∙ x) in
      if_intro (MovesSearch (t ∷ ts)) (contains text_eq q.key (infos_of k t)) _ _
        (λ _.
          Moves-here event [] [] t (wakeup t) ts
            (Passes-wakeup [] [] t t (Passes-told event t t.msg t.is_running e)) a)
        (λ _.
          Moves-here event [] [] t (wakeup (add_info q k t)) ts
            (Passes-wakeup [] [] t (add_info q k t) (Passes-set_infos event k _ t other e)) a)

  pub insert_known-MovesSearch :
      (q : Request) (ts : List Thread)
      → All (HasEvent event) ts
      → MovesSearch ts (insert_known q ts)
  insert_known-MovesSearch q [] a = tt
  insert_known-MovesSearch q (t ∷ ts) a =
      found_at-MovesSearch q (known_handle q t) t ts (insert_known q ts) refl a.0 a.1
        (insert_known-MovesSearch q ts a.1)

  -- The second loop: one handle more.
  pub place_handle-Moves :
      (q : Request) (k : ℕ) (ts : List Thread)
      → k ≢ event
      → All (HasEvent event) ts
      → Moves event (k ∷ []) [] ts (place_handle event q k ts)
  unfolding new_thread delete_thread
  place_handle-Moves q k [] n a =
      let p = Passes-take_handle event q k (new_thread event) n (new_thread-HasEvent event) in
      let p' = Passes-retold (k ∷ []) [] (new_thread event) _ b'@' true p in
      record { events_kept = (p'.event_kept, tt); sums = λ j. omega arith }
  place_handle-Moves q k (t ∷ ts) n a =
      if_intro (Moves event (k ∷ []) [] (t ∷ ts)) (ltb (length t.handles) max_wait_objects) _ _
        (λ _.
          Moves-here event (k ∷ []) [] t _ ts
            (Passes-wakeup (k ∷ []) [] t (take_handle q k t) (Passes-take_handle event q k t n a.0))
            a.1)
        (λ _. Moves-later event (k ∷ []) [] t ts _ a.0 (place_handle-Moves q k ts n a.1))
