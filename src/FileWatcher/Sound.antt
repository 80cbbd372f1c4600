-- ===== src/FileWatcher/Sound.antt =====
-- What holds of a thread of client/qt/mfilesystemwatcher_win.cpp between two calls, and the steps that
-- keep it.
use easysync.Prelude.{
  ℕ, ◌≤◌, ◌≡◌, ◌≢◌, ◌⊎◌, refl, Bool, true, false, ◌||◌, some, List, [], ◌∷◌, ◌++◌, ◌==◌, ==_iff,
  ltb, ltb→lt, length, length-append, any, any-append, if◌then◌else◌, ap, ◌∙◌, sym, subst, arith,
  All, Bool-cases, inl, inr,
}
use easysync.Text.{Text, text_eq, text_eq_iff}
use easysync.FileWatcher.Hash.{Entry, Hash, lookup, insert, lookup-insert, lookup-erase}
use easysync.FileWatcher.Thread.{
  Handle, PathInfo, Thread, max_wait_objects, nat_eq, infos_or_empty, infos_of, set_infos,
  remove_first, close_handle,
}

abbrev pub is_open : ℕ → List ℕ → Bool
is_open handle = any (λ h. h == handle)

abbrev pub In : Text → Entry Text PathInfo → Type 0
In folder x = x.value.absolute_path ≡ folder

-- A thread waits for at most 64 handles; the handle that it has for a folder is among them, belongs
-- to no other folder, and has paths of that folder only; a handle that is not among them has none.
pub record IsSound (t : Thread) : Type 0 where
  pub bounded : length t.handles ≤ max_wait_objects
  pub held :
      (folder : Text) (h : Handle)
      → lookup text_eq folder t.handle_for_dir ≡ some h
      → is_open h.handle t.handles ≡ true
  pub apart :
      (folder folder' : Text) (h h' : Handle)
      → lookup text_eq folder t.handle_for_dir ≡ some h
      → lookup text_eq folder' t.handle_for_dir ≡ some h'
      → h.handle ≡ h'.handle
      → folder ≡ folder'
  pub placed :
      (folder : Text) (h : Handle)
      → lookup text_eq folder t.handle_for_dir ≡ some h
      → All (In folder) (infos_of h.handle t)
  pub stale : (handle : ℕ) → is_open handle t.handles ≡ false → infos_of handle t ≡ []

pub infos_of-set_infos :
    (j k : ℕ) (h : Hash Text PathInfo) (t : Thread)
    → infos_of k (set_infos j h t) ≡ (if j == k then h else infos_of k t)
infos_of-set_infos j k h t =
    ap infos_or_empty (lookup-insert nat_eq ==_iff j k h t.path_info_for_handle) ∙ ground arith

is_open-remove_first :
    (x y : ℕ) (hs : List ℕ) → x ≢ y → is_open x (remove_first y hs) ≡ is_open x hs
is_open-remove_first x y [] n = refl
is_open-remove_first x y (z ∷ hs) n = ground (arith, is_open-remove_first x y hs)

length-remove_first : (y : ℕ) (hs : List ℕ) → length (remove_first y hs) ≤ length hs
length-remove_first y [] = omega arith
length-remove_first y (z ∷ hs) = ground (arith, length-remove_first y hs)

module _ (t : Thread) (s : IsSound t) where
  pub set_infos-IsSound :
      (handle : ℕ) (h : Hash Text PathInfo)
      → (is_open handle t.handles ≡ false → h ≡ [])
      → ((folder : Text) (x : Handle)
          → lookup text_eq folder t.handle_for_dir ≡ some x
          → x.handle ≡ handle
          → All (In folder) h)
      → IsSound (set_infos handle h t)
  set_infos-IsSound handle h closed kept = record {
    bounded = s.bounded;
    held = s.held;
    apart = s.apart;
    placed = λ folder x p. elim (Bool-cases (handle == x.handle)) [
      | inl q ↦
          subst (All (In folder)) (sym (chosen x.handle true q))
            (kept folder x p (sym ((==_iff handle x.handle).0 q)))
      | inr q ↦ subst (All (In folder)) (sym (chosen x.handle false q)) (s.placed folder x p)
    ];
    stale = λ k p. elim (Bool-cases (handle == k)) [
      | inl q ↦ chosen k true q ∙ closed (ap (λ x. is_open x t.handles) ((==_iff handle k).0 q) ∙ p)
      | inr q ↦ chosen k false q ∙ s.stale k p
    ];
  }
    where
      chosen :
          (k : ℕ) (b : Bool)
          → (handle == k) ≡ b
          → infos_of k (set_infos handle h t) ≡ (if b then h else infos_of k t)
      chosen k b q = infos_of-set_infos handle k h t ∙ ap (λ b. if b then h else infos_of k t) q

  -- A handle without paths, which belongs to this folder or to none.
  module _ (handle : ℕ) (f : Text) (empty : infos_of handle t ≡ [])
      (owner : (folder : Text) (h : Handle)
        → lookup text_eq folder t.handle_for_dir ≡ some h
        → h.handle ≡ handle
        → folder ≡ f) where
    still_there :
        (folder : Text) (h : Handle)
        → lookup text_eq folder (close_handle handle f t).handle_for_dir ≡ some h
        → (lookup text_eq folder t.handle_for_dir ≡ some h) × (h.handle ≢ handle)
    still_there folder h p =
        let e = lookup-erase text_eq text_eq_iff f folder t.handle_for_dir in
        elim (Bool-cases (text_eq f folder)) [
          | inl q ↦ absurd (ground arith)
          | inr q ↦
              let old : lookup text_eq folder t.handle_for_dir ≡ some h = ground arith in
              (old, λ same. ground (arith, owner folder h old same, text_eq_iff f folder))
        ]

    pub close_handle-IsSound : IsSound (close_handle handle f t)
    close_handle-IsSound = record {
      bounded = omega (arith, length-remove_first handle t.handles, s.bounded);
      held = λ folder h p.
          let (old, other) = still_there folder h p in
          is_open-remove_first h.handle handle t.handles other ∙ s.held folder h old;
      apart = λ folder folder' h h' p p'.
          s.apart folder folder' h h' (still_there folder h p).0 (still_there folder' h' p').0;
      placed = λ folder h p. s.placed folder h (still_there folder h p).0;
      stale = λ k p. elim (Bool-cases (k == handle)) [
        | inl q ↦ ap (λ x. infos_of x t) ((==_iff k handle).0 q) ∙ empty
        | inr q ↦ s.stale k (
            sym (is_open-remove_first k handle t.handles (λ same. ground (arith, ==_iff k handle)))
            ∙ p)
      ];
    }

  -- A handle that is not among those of the thread.
  module _ (x : Handle) (f : Text) (fresh : is_open x.handle t.handles ≡ false)
      (room : ltb (length t.handles) max_wait_objects ≡ true) where
    abbrev pub holding : Thread
    holding = record t {
      handles = t.handles ++ x.handle ∷ [];
      handle_for_dir = insert text_eq f x t.handle_for_dir;
    }

    found :
        (folder : Text) (h : Handle)
        → lookup text_eq folder holding.handle_for_dir ≡ some h
        → ((folder ≡ f) × (h ≡ x)) ⊎ (lookup text_eq folder t.handle_for_dir ≡ some h)
    found folder h p =
        let e = lookup-insert text_eq text_eq_iff f folder x t.handle_for_dir in
        elim (Bool-cases (text_eq f folder)) [
          | inl q ↦ inl (sym ((text_eq_iff f folder).0 q), ground arith)
          | inr q ↦ inr (ground arith)
        ]

    is_open-holding : (k : ℕ) → is_open k holding.handles ≡ (is_open k t.handles || (x.handle == k))
    is_open-holding k = any-append (λ h. h == k) t.handles (x.handle ∷ []) ∙ ground arith

    -- An old handle is not the new one.
    old_ne :
        (folder : Text) (h : Handle)
        → lookup text_eq folder t.handle_for_dir ≡ some h
        → h.handle ≢ x.handle
    old_ne folder h p same = cc (s.held folder h p, ap (λ k. is_open k t.handles) same, fresh)

    pub holding-IsSound : IsSound holding
    holding-IsSound = record {
      bounded = omega (arith, length-append t.handles (x.handle ∷ []), ltb→lt _ _ room);
      held = λ folder h p. elim (found folder h p) [
        | inl (a, b) ↦ ground (arith, is_open-holding h.handle, ap (λ (k : Handle). k.handle) b)
        | inr old ↦ ground (arith, is_open-holding h.handle, s.held folder h old)
      ];
      apart = λ folder folder' h h' p p' same. elim (found folder h p) [
        | inl (a, b) ↦ elim (found folder' h' p') [
          | inl (a', b') ↦ a ∙ sym a'
          | inr old ↦ absurd (old_ne folder' h' old (sym same ∙ ap (λ (k : Handle). k.handle) b))
        ]
        | inr old ↦ elim (found folder' h' p') [
          | inl (a', b') ↦ absurd (old_ne folder h old (same ∙ ap (λ (k : Handle). k.handle) b'))
          | inr old' ↦ s.apart folder folder' h h' old old' same
        ]
      ];
      placed = λ folder h p. elim (found folder h p) [
        | inl (a, b) ↦
            subst (All (In folder))
              (sym (ap (λ (k : Handle). infos_of k.handle t) b ∙ s.stale x.handle fresh)) tt
        | inr old ↦ s.placed folder h old
      ];
      stale = λ k p. s.stale k (ground (arith, is_open-holding k));
    }
