-- ===== src/FileWatcher/Good.antt =====
-- A thread of client/qt/mfilesystemwatcher_win.cpp beside the handles that Windows is about to give, and
-- the steps that keep it good.
use easysync.Prelude.{
  ℕ, ◌≡◌, refl, Bool, true, false, Option, none, some, List, [], ◌∷◌, ◌==◌, ==_iff, any, ap, sym,
  subst, arith, All, Bool-cases, inl, inr,
}
use easysync.Text.{Text, text_eq}
use easysync.FileWatcher.Hash.{Entry, Hash, lookup, insert, erase}
use easysync.FileWatcher.Thread.{
  Handle, PathInfo, Thread, infos_of, set_infos, remove_first, close_handle, new_thread,
}
use easysync.FileWatcher.Sound.{IsSound, In, is_open, set_infos-IsSound, close_handle-IsSound}

-- Windows is about to give that handle.
abbrev pub grants : ℕ → Option ℕ → Bool
grants k none = false
grants k (some handle) = handle == k

abbrev pub is_granted : ℕ → List (Option ℕ) → Bool
is_granted k = any (grants k)

abbrev pub NoRepeat : List (Option ℕ) → Type 0
NoRepeat [] = Unit {0}
NoRepeat (none ∷ g) = NoRepeat g
NoRepeat (some handle ∷ g) = (is_granted handle g ≡ false) × NoRepeat g

-- A sound thread that has none of the handles that Windows is about to give.
pub record IsGood (g : List (Option ℕ)) (t : Thread) : Type 0 where
  pub sound : IsSound t
  pub unused : (k : ℕ) → is_granted k g ≡ true → is_open k t.handles ≡ false

pub insert-All :
    (P : Entry Text PathInfo → Type 0) (k : Text) (v : PathInfo) (h : Hash Text PathInfo)
    → All P h
    → P (record { key = k; value = v })
    → All P (insert text_eq k v h)
insert-All P k v [] a p = (p, tt)
insert-All P k v (e ∷ h) a p = elim (Bool-cases (text_eq e.key k)) [
  | inl q ↦ rw q (p, a.1)
  | inr q ↦ rw q (a.0, insert-All P k v h a.1 p)
]

pub erase-All :
    (P : Entry Text PathInfo → Type 0) (k : Text) (h : Hash Text PathInfo)
    → All P h
    → All P (erase text_eq k h)
erase-All P k [] a = tt
erase-All P k (e ∷ h) a = elim (Bool-cases (text_eq e.key k)) [
  | inl q ↦ rw q (erase-All P k h a.1)
  | inr q ↦ rw q (a.0, erase-All P k h a.1)
]

is_open-of-remove_first :
    (x y : ℕ) (hs : List ℕ) → is_open x hs ≡ false → is_open x (remove_first y hs) ≡ false
is_open-of-remove_first x y [] h = refl
is_open-of-remove_first x y (z ∷ hs) h = ground (arith, is_open-of-remove_first x y hs)

-- The message and the state of the thread do not count.
pub IsGood-told :
    (g : List (Option ℕ)) (t : Thread) (m : ℕ) (b : Bool)
    → IsGood g t
    → IsGood g (record t { msg = m; is_running = b })
IsGood-told g t m b s = record {
  sound = record {
    bounded = s.sound.bounded;
    held = s.sound.held;
    apart = s.sound.apart;
    placed = s.sound.placed;
    stale = s.sound.stale;
  };
  unused = s.unused;
}

module _ (g : List (Option ℕ)) where
  module _ (t : Thread) (s : IsGood g t) (folder : Text) (h : Handle)
      (p : lookup text_eq folder t.handle_for_dir ≡ some h) where
    -- New paths of the folder, at a handle of the thread.
    pub infos-IsGood :
        (infos : Hash Text PathInfo) → All (In folder) infos → IsGood g (set_infos h.handle infos t)
    infos-IsGood infos a = record {
      sound =
          set_infos-IsSound t s.sound h.handle infos
            (λ closed. cc (s.sound.held folder h p, closed))
            (λ folder' h' p' same.
              subst (λ f. All (In f) infos) (s.sound.apart folder folder' h h' p p' (sym same)) a);
      unused = s.unused;
    }

  -- A handle is closed that has no paths left.
  pub closed-IsGood :
      (t : Thread) (handle : ℕ) (folder : Text)
      → IsGood g t
      → infos_of handle t ≡ []
      → ((f : Text) (h : Handle)
          → lookup text_eq f t.handle_for_dir ≡ some h
          → h.handle ≡ handle
          → f ≡ folder)
      → IsGood g (close_handle handle folder t)
  closed-IsGood t handle folder s empty owner = record {
    sound = close_handle-IsSound t s.sound handle folder empty owner;
    unused = λ k q. is_open-of-remove_first k handle t.handles (s.unused k q);
  }

-- What Windows gives is no longer to come.
pub IsGood-less : (k : ℕ) (g : List (Option ℕ)) (t : Thread) → IsGood (some k ∷ g) t → IsGood g t
IsGood-less k g t s = record { sound = s.sound; unused = λ j p. s.unused j (ground arith) }

pub new_thread-IsGood :
    {g : List (Option ℕ)} (event : ℕ) → is_granted event g ≡ false → IsGood g (new_thread event)
unfolding new_thread
new_thread-IsGood {g} event n = record {
  sound = record {
    bounded = omega arith;
    held = λ folder h p. cc;
    apart = λ folder folder' h h' p p' same. cc;
    placed = λ folder h p. cc;
    stale = λ k p. refl;
  };
  unused = λ k p. ground (arith, ==_iff event k, ap (λ j. is_granted j g));
}

-- So too if Windows gives none.
pub IsGood-unanswered : (g : List (Option ℕ)) (t : Thread) → IsGood (none ∷ g) t → IsGood g t
IsGood-unanswered g t s = record { sound = s.sound; unused = λ j p. s.unused j (ground arith) }
