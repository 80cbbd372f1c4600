-- ===== src/FileWatcher/Placing.antt =====
-- addPaths of client/qt/mfilesystemwatcher_win.cpp: a path and a handle at the threads of the engine.
use easysync.Prelude.{
  ℕ, ◌≡◌, refl, true, false, Option, none, some, List, [], ◌∷◌, ◌++◌, ◌==◌, ==_iff, ltb, length,
  any-append, if◌then◌else◌, ap, ◌∙◌, subst, arith, All, All-of-All, Bool-cases, inl, inr,
}
use easysync.Text.{Text, text_eq, text_eq_iff, text_eq_refl}
use easysync.FileWatcher.Hash.{lookup, contains, insert, lookup-insert}
use easysync.FileWatcher.Thread.{
  Handle, Thread, max_wait_objects, infos_of, set_infos, new_thread, wakeup,
}
use easysync.FileWatcher.Adding.{
  Request, Search, absent, at_thread, known_handle, with_flags, flags_of, add_info, take_handle,
  place_handle, insert_known, found_at, behind,
}
use easysync.FileWatcher.Sound.{In, is_open, holding, holding-IsSound}
use easysync.FileWatcher.Good.{
  IsGood, IsGood-told, IsGood-less, new_thread-IsGood, is_granted, insert-All, infos-IsGood,
}

module _ (g : List (Option ℕ)) where
  -- An entry of the hash was put there with flags.
  pub with_flags-eq-some :
      (flags k : ℕ) (o : Option Handle)
      → with_flags flags o ≡ some k
      → (h : Handle) × (o ≡ some h) × (h.handle ≡ k)
  with_flags-eq-some flags k none p = cc
  with_flags-eq-some flags k (some h) p = (h, refl, ground arith)

  woken-IsGood : (t : Thread) → IsGood g t → IsGood g (wakeup t)
  unfolding wakeup
  woken-IsGood t s = IsGood-told g t b'@' t.is_running s

  add_info-IsGood :
      (q : Request) (k : ℕ) (t : Thread)
      → IsGood g t
      → known_handle q t ≡ some k
      → IsGood g (wakeup (add_info q k t))
  add_info-IsGood q k t s p =
      let (h, found, same) = with_flags-eq-some (flags_of q) k _ p in
      let infos = insert text_eq q.key q.info (infos_of k t) in
      let old : All (In q.info.absolute_path) (infos_of k t) =
        subst (λ x. All (In q.info.absolute_path) (infos_of x t)) same
          (s.sound.placed q.info.absolute_path h found) in
      woken-IsGood (add_info q k t) (
        subst (λ x. IsGood g (set_infos x infos t)) same
          (infos-IsGood g t s q.info.absolute_path h found infos
            (insert-All (In q.info.absolute_path) q.key q.info (infos_of k t) old refl)))

  -- What the first loop leaves.
  abbrev pub GoodSearch : Search → Type 0
  GoodSearch absent = Unit {0}
  GoodSearch (at_thread new ts) = All (IsGood g) ts

  behind-GoodSearch :
      (t : Thread) (x : Search) → IsGood g t → GoodSearch x → GoodSearch (behind t x)
  behind-GoodSearch t absent s a = tt
  behind-GoodSearch t (at_thread new ts) s a = (s, a)

  found_at-GoodSearch :
      (q : Request) (o : Option ℕ) (t : Thread) (ts : List Thread) (later : Search)
      → known_handle q t ≡ o
      → IsGood g t
      → All (IsGood g) ts
      → GoodSearch later
      → GoodSearch (found_at q o t ts later)
  found_at-GoodSearch q none t ts later p s a b = behind-GoodSearch t later s b
  found_at-GoodSearch q (some k) t ts later p s a b =
      elim (contains text_eq q.key (infos_of k t))
        as (λ c. GoodSearch (
          if c
          then at_thread false (wakeup t ∷ ts)
          else at_thread true (wakeup (add_info q k t) ∷ ts))) [
            | true ↦ (woken-IsGood t s, a)
            | false ↦ (add_info-IsGood q k t s p, a)
          ]

  pub insert_known-GoodSearch :
      (q : Request) (ts : List Thread) → All (IsGood g) ts → GoodSearch (insert_known q ts)
  insert_known-GoodSearch q [] a = tt
  insert_known-GoodSearch q (t ∷ ts) a =
      found_at-GoodSearch q (known_handle q t) t ts (insert_known q ts) refl a.0 a.1
        (insert_known-GoodSearch q ts a.1)

  -- A handle that Windows gives goes to a thread with room.
  module _ (q : Request) (k : ℕ) (once : is_granted k g ≡ false) where
    take_handle-IsGood :
        (t : Thread)
        → IsGood (some k ∷ g) t
        → ltb (length t.handles) max_wait_objects ≡ true
        → IsGood g (take_handle q k t)
    take_handle-IsGood t s room =
        let x : Handle = record { handle = k; flags = flags_of q } in
        let folder = q.info.absolute_path in
        let fresh : is_open k t.handles ≡ false = s.unused k (ground arith) in
        let held = holding-IsSound t s.sound x folder fresh room in
        let t' = holding t s.sound x folder fresh room in
        let good : IsGood g t' = record { sound = held; unused = λ j p. still_unused t s j p } in
        infos-IsGood g t' good folder x (here t folder x)
          (insert text_eq q.key q.info (infos_of k t'))
          (insert-All (In folder) q.key q.info (infos_of k t')
            (held.placed folder x (here t folder x)) refl)
      where
        still_unused :
            (t : Thread)
            → IsGood (some k ∷ g) t
            → (j : ℕ) → is_granted j g ≡ true
            → is_open j (t.handles ++ k ∷ []) ≡ false
        still_unused t s j p =
            any-append (λ h. h == j) t.handles (k ∷ [])
            ∙ ground (arith, s.unused j, ==_iff k j, ap (λ i. is_granted i g), once)

        here :
            (t : Thread) (folder : Text) (x : Handle)
            → lookup text_eq folder (insert text_eq folder x t.handle_for_dir) ≡ some x
        here t folder x =
            lookup-insert text_eq text_eq_iff folder folder x t.handle_for_dir
            ∙ rw (text_eq_refl folder)

    pub place_handle-IsGood :
        (event : ℕ) (ts : List Thread)
        → is_granted event (some k ∷ g) ≡ false
        → All (IsGood (some k ∷ g)) ts
        → All (IsGood g) (place_handle event q k ts)
    unfolding new_thread
    place_handle-IsGood event [] n a = (
      IsGood-told g (take_handle q k (new_thread event)) b'@' true
          (take_handle-IsGood (new_thread event) (new_thread-IsGood event n) refl),
      tt,
    )
    place_handle-IsGood event (t ∷ ts) n a =
        elim (Bool-cases (ltb (length t.handles) max_wait_objects)) [
          | inl room ↦ rw room (
            woken-IsGood (take_handle q k t) (take_handle-IsGood t a.0 room),
            All-of-All ts (IsGood-less k g) a.1,
          )
          | inr full ↦ rw full (IsGood-less k g t a.0, place_handle-IsGood event ts n a.1)
        ]
