-- ===== src/FileWatcher/Closing.antt =====
-- removePaths and run of client/qt/mfilesystemwatcher_win.cpp: which handles their rounds close.
use easysync.Prelude.{
  ℕ, ◌+◌, ◌≡◌, ◌≢◌, refl, true, false, not, Option, none, some, List, [], ◌∷◌, ◌==◌, ap, arith,
  Bool-cases, inl, inr, All, if_intro, get_elem?, filter,
}
use easysync.Text.{Text, text_eq}
use easysync.Server.Departure.{count}
use easysync.FileWatcher.System.{FileSystem}
use easysync.FileWatcher.Hash.{Hash, lookup, contains, erase}
use easysync.FileWatcher.Thread.{
  Handle, PathInfo, Thread, nat_eq, infos_of, set_infos, close_handle, stop_thread, is_nil,
  behind_event, delete_thread, delete_each,
}
use easysync.FileWatcher.Removing.{Removal, removal_at, remove_info, remove_at, stop_if_idle}
use easysync.FileWatcher.Notifying.{Woken, wake, on_handle, check_handle, check_each, last_folder}
use easysync.FileWatcher.Sound.{IsSound, is_open}
use easysync.FileWatcher.Handles.{
  HasEvent, Passes, Passes-told, Passes-set_infos, Passes-close_handle, Moves, Moves-here,
  Moves-later, Moves-refl, count-append,
}
use easysync.FileWatcher.Moving.{Passes-retold}

module _ (event : ℕ) where
  stop_if_idle-Passes :
      (given closed : List ℕ) (t t' : Thread)
      → Passes event given closed t t'
      → Passes event given closed t (stop_if_idle t')
  unfolding stop_thread
  stop_if_idle-Passes given closed t t' p =
      if_intro (Passes event given closed t) (is_nil t'.handle_for_dir) _ t'
        (λ _. Passes-retold event given closed t t' 0 false p) (λ _. p)

  -- A handle is closed behind a change of its paths.
  Passes-emptied :
      (k : ℕ) (folder : Text) (h : Hash Text PathInfo) (t : Thread)
      → k ≢ event
      → is_open k t.handles ≡ true
      → HasEvent event t
      → Passes event [] (k ∷ []) t (close_handle k folder (set_infos k h t))
  Passes-emptied k folder h t n o e =
      let p =
        Passes-close_handle event k folder (set_infos k h t) n o
          (Passes-set_infos event k h t n e).event_kept in
      record { event_kept = p.event_kept; sum = p.sum }

  remove_info-Moves :
      (key folder : Text) (h : Handle) (t : Thread) (ts : List Thread)
      → IsSound t
      → HasEvent event t
      → All (HasEvent event) ts
      → lookup text_eq folder t.handle_for_dir ≡ some h
      → let r = remove_info key folder h.handle t ts in Moves event [] r.closes (t ∷ ts) r.threads
  remove_info-Moves key folder h t ts s e a p =
      let P = λ (r : Removal). Moves event [] r.closes (t ∷ ts) r.threads in
      let infos = erase text_eq key (infos_of h.handle t) in
      let other = e.no_folder folder h p in
      if_intro P (not (contains text_eq key (infos_of h.handle t))) _ _
        (λ _. Moves-here event [] [] t t ts (Passes-told event t t.msg t.is_running e) a)
        (λ _.
          if_intro P (is_nil infos) _ _
            (λ _.
              Moves-here event [] (h.handle ∷ []) t _ ts
                (stop_if_idle-Passes [] (h.handle ∷ []) t _
                  (Passes-emptied h.handle folder infos t other (s.held folder h p) e))
                a)
            (λ _.
              Moves-here event [] [] t _ ts (Passes-set_infos event h.handle infos t other e) a))

  removal_at-Moves :
      (key parent folder : Text) (o o' : Option Handle) (t : Thread) (ts : List Thread)
      (later : Removal)
      → lookup text_eq folder t.handle_for_dir ≡ o
      → lookup text_eq parent t.handle_for_dir ≡ o'
      → IsSound t
      → HasEvent event t
      → All (HasEvent event) ts
      → Moves event [] later.closes ts later.threads
      → let r = removal_at key parent folder o o' t ts later in
        Moves event [] r.closes (t ∷ ts) r.threads
  removal_at-Moves key parent folder (some h) o' t ts later p p' s e a m =
      remove_info-Moves key folder h t ts s e a p
  removal_at-Moves key parent folder none (some h) t ts later p p' s e a m =
      remove_info-Moves key parent h t ts s e a p'
  removal_at-Moves key parent folder none none t ts later p p' s e a m =
      Moves-later event [] later.closes t ts later.threads e m

  pub remove_at-Moves :
      (key parent folder : Text) (ts : List Thread)
      → All IsSound ts
      → All (HasEvent event) ts
      → let r = remove_at key parent folder ts in Moves event [] r.closes ts r.threads
  remove_at-Moves key parent folder [] s a = Moves-refl event [] tt
  remove_at-Moves key parent folder (t ∷ ts) s a =
      removal_at-Moves key parent folder _ _ t ts (remove_at key parent parent ts) refl refl s.0 a.0
        a.1 (remove_at-Moves key parent parent ts s.1 a.1)

  check_handle-Passes :
      (fs : FileSystem) (k : ℕ) (h : Hash Text PathInfo) (t : Thread)
      → infos_of k t ≡ h
      → is_open k t.handles ≡ true
      → HasEvent event t
      → Passes event [] (check_handle fs k h t).closes t (check_handle fs k h t).thread
  check_handle-Passes fs k [] t p o e = Passes-told event t t.msg t.is_running e
  check_handle-Passes fs k (x ∷ h) t p o e =
      let kept = (check_each fs (x ∷ h)).kept in
      let other : k ≢ event = λ same. cc (p, e.no_infos, ap (λ j. infos_of j t) same) in
      elim (Bool-cases (is_nil kept)) [
        | inl q ↦ rw q (Passes-emptied k (last_folder x.value.absolute_path h) kept t other o e)
        | inr q ↦ rw q (Passes-set_infos event k kept t other e)
      ]

  on_handle-Passes :
      (fs : FileSystem) (o : Option ℕ) (t : Thread)
      → HasEvent event t
      → Passes event [] (on_handle fs o t).closes t (on_handle fs o t).thread
  on_handle-Passes fs none t e = Passes-told event t t.msg t.is_running e
  on_handle-Passes fs (some k) t e =
      if_intro (λ (w : Woken). Passes event [] w.closes t w.thread) (is_open k t.handles) _ _
        (λ o. check_handle-Passes fs k (infos_of k t) t refl o e)
        (λ _. Passes-told event t t.msg t.is_running e)

  pub wake-Passes :
      (fs : FileSystem) (waited : List ℕ) (r : ℕ) (t : Thread)
      → HasEvent event t
      → Passes event [] (wake fs waited r t).closes t (wake fs waited r t).thread
  unfolding wake
  wake-Passes fs waited r t e =
      let P = λ (w : Woken). Passes event [] w.closes t w.thread in
      if_intro P (r == 0) _ _
        (λ _.
          if_intro P (t.msg == b'q') _ _ (λ _. Passes-told event t 0 false e)
            (λ _. Passes-told event t 0 t.is_running e))
        (λ _. on_handle-Passes fs (get_elem? waited r) t e)

  -- The threads that were stopped are deleted, with the handles that they have left.
  pub count-delete_each :
      (k : ℕ) (ts : List Thread)
      → count nat_eq k (delete_each (filter (λ (t : Thread). not t.is_running) ts))
          + count nat_eq k (delete_each (filter (λ (t : Thread). t.is_running) ts))
        ≡ count nat_eq k (delete_each ts)
  unfolding delete_thread
  count-delete_each k [] = refl
  count-delete_each k (t ∷ ts) =
      let all = count-append k (behind_event t.handles) in
      elim (Bool-cases t.is_running) [
        | inl p ↦ rw p (
            omega (
              arith,
              all (delete_each ts),
              all (delete_each (filter (λ (t : Thread). t.is_running) ts)),
              count-delete_each k ts,
            ))
        | inr p ↦ rw p (
            omega (
              arith,
              all (delete_each ts),
              all (delete_each (filter (λ (t : Thread). not t.is_running) ts)),
              count-delete_each k ts,
            ))
      ]
