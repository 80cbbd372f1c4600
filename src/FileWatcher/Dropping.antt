-- ===== src/FileWatcher/Dropping.antt =====
-- removePaths and run of client/qt/mfilesystemwatcher_win.cpp: what they do to one thread.
use easysync.Prelude.{
  ℕ, ◌≡◌, refl, true, false, not, Option, none, some, List, [], ◌∷◌, ◌==◌, ap, ◌∙◌, sym, subst, All,
  All-append, if_intro, ==_refl, get_elem?,
}
use easysync.Text.{Text, text_eq}
use easysync.FileWatcher.Hash.{Entry, Hash, lookup, contains, erase}
use easysync.FileWatcher.System.{stat_eq, FileSystem}
use easysync.FileWatcher.Thread.{
  Handle, PathInfo, Thread, infos_of, set_infos, close_handle, is_nil, stop_thread,
}
use easysync.FileWatcher.Removing.{Removal, removal_at, remove_info, remove_at, stop_if_idle}
use easysync.FileWatcher.Notifying.{
  Woken, wake, on_handle, check_handle, check_each, check_path, last_folder, Checked,
}
use easysync.FileWatcher.Sound.{infos_of-set_infos, set_infos-IsSound, In, is_open}
use easysync.FileWatcher.Good.{IsGood, IsGood-told, erase-All, infos-IsGood, closed-IsGood}

nil_of_is_nil {ℓ} : {A : Type ℓ} (xs : List A) → is_nil xs ≡ true → xs ≡ []
nil_of_is_nil [] h = refl
nil_of_is_nil (x ∷ xs) h = cc

-- Looking at a path leaves it in its folder.
check_path-In :
    (fs : FileSystem) (folder : Text) (x : Entry Text PathInfo)
    → In folder x
    → All (In folder) (check_path fs x).kept
unfolding check_path
check_path-In fs folder x p =
    let P = λ (c : Checked). All (In folder) c.kept in
    if_intro P (not (fs.exists x.value.path)) _ _ (λ _. tt)
      (λ _.
        if_intro P x.value.is_dir _ _ (λ _. (p, tt))
          (λ _.
            if_intro P (not (stat_eq x.value.stat (fs.stat x.value.path))) _ _ (λ _. (p, tt))
              (λ _. (p, tt))))

check_each-In :
    (fs : FileSystem) (folder : Text) (h : Hash Text PathInfo)
    → All (In folder) h
    → All (In folder) (check_each fs h).kept
unfolding check_each
check_each-In fs folder [] a = tt
check_each-In fs folder (x ∷ h) a =
    All-append (In folder) (check_path fs x).kept (check_each fs h).kept
      (check_path-In fs folder x a.0) (check_each-In fs folder h a.1)

last_folder-In :
    (f folder : Text) (h : Hash Text PathInfo)
    → folder ≡ f
    → All (In f) h
    → last_folder folder h ≡ f
last_folder-In f folder [] p a = p
last_folder-In f folder (x ∷ h) p a = last_folder-In f x.value.absolute_path h a.0 a.1

module _ (g : List (Option ℕ)) where
  stop_if_idle-IsGood : (t : Thread) → IsGood g t → IsGood g (stop_if_idle t)
  unfolding stop_thread
  stop_if_idle-IsGood t s =
      if_intro (IsGood g) (is_nil t.handle_for_dir) _ t (λ _. IsGood-told g t 0 false s) (λ _. s)

  -- The last path of a handle is gone: the handle is closed.
  emptied-IsGood :
      (t : Thread) (folder : Text) (h : Handle)
      → IsGood g t
      → lookup text_eq folder t.handle_for_dir ≡ some h
      → IsGood g (close_handle h.handle folder (set_infos h.handle [] t))
  emptied-IsGood t folder h s p =
      closed-IsGood g (set_infos h.handle [] t) h.handle folder
        (infos-IsGood g t s folder h p [] tt)
        (infos_of-set_infos h.handle h.handle [] t ∙ rw (==_refl h.handle))
        (λ f x q same. s.sound.apart f folder x h q p same)

  remove_info-IsGood :
      (key folder : Text) (h : Handle) (t : Thread) (ts : List Thread)
      → IsGood g t
      → All (IsGood g) ts
      → lookup text_eq folder t.handle_for_dir ≡ some h
      → All (IsGood g) (remove_info key folder h.handle t ts).threads
  remove_info-IsGood key folder h t ts s a p =
      let P = λ (r : Removal). All (IsGood g) r.threads in
      let infos = erase text_eq key (infos_of h.handle t) in
      if_intro P (not (contains text_eq key (infos_of h.handle t))) _ _ (λ _. (s, a))
        (λ _.
          if_intro P (is_nil infos) _ _
            (λ none_left. (
              subst
                  (λ x.
                    IsGood g (stop_if_idle (close_handle h.handle folder (set_infos h.handle x t))))
                  (sym (nil_of_is_nil infos none_left))
                  (stop_if_idle-IsGood _ (emptied-IsGood t folder h s p)),
              a,
            ))
            (λ _. (
              infos-IsGood g t s folder h p infos
                  (erase-All (In folder) key (infos_of h.handle t) (s.sound.placed folder h p)),
              a,
            )))

  removal_at-IsGood :
      (key parent folder : Text) (o o' : Option Handle) (t : Thread) (ts : List Thread)
      (later : Removal)
      → lookup text_eq folder t.handle_for_dir ≡ o
      → lookup text_eq parent t.handle_for_dir ≡ o'
      → IsGood g t
      → All (IsGood g) ts
      → All (IsGood g) later.threads
      → All (IsGood g) (removal_at key parent folder o o' t ts later).threads
  removal_at-IsGood key parent folder (some h) o' t ts later p p' s a b =
      remove_info-IsGood key folder h t ts s a p
  removal_at-IsGood key parent folder none (some h) t ts later p p' s a b =
      remove_info-IsGood key parent h t ts s a p'
  removal_at-IsGood key parent folder none none t ts later p p' s a b = (s, b)

  pub remove_at-IsGood :
      (key parent folder : Text) (ts : List Thread)
      → All (IsGood g) ts
      → All (IsGood g) (remove_at key parent folder ts).threads
  remove_at-IsGood key parent folder [] a = tt
  remove_at-IsGood key parent folder (t ∷ ts) a =
      removal_at-IsGood key parent folder _ _ t ts (remove_at key parent parent ts) refl refl a.0
        a.1 (remove_at-IsGood key parent parent ts a.1)

  check_handle-IsGood :
      (fs : FileSystem) (handle : ℕ) (h : Hash Text PathInfo) (t : Thread)
      → infos_of handle t ≡ h
      → is_open handle t.handles ≡ true
      → IsGood g t
      → IsGood g (check_handle fs handle h t).thread
  check_handle-IsGood fs handle [] t e o s = s
  check_handle-IsGood fs handle (x ∷ h) t e o s =
      let kept = (check_each fs (x ∷ h)).kept in
      let t' = set_infos handle kept t in
      let placed =
        λ (f : Text) (y : Handle) (p : lookup text_eq f t.handle_for_dir ≡ some y)
            (same : y.handle ≡ handle).
          subst (All (In f)) (ap (λ k. infos_of k t) same ∙ e) (s.sound.placed f y p) in
      let good : IsGood g t' = record {
        sound =
            set_infos-IsSound t s.sound handle kept (λ closed. cc)
              (λ f y p same. check_each-In fs f (x ∷ h) (placed f y p same));
        unused = s.unused;
      } in
      if_intro (IsGood g) (is_nil kept) _ t'
        (λ none_left.
          closed-IsGood g t' handle (last_folder x.value.absolute_path h) good
            (infos_of-set_infos handle handle kept t
              ∙ rw (==_refl handle) (nil_of_is_nil kept none_left))
            (λ f y p same.
              let a = placed f y p same in sym (last_folder-In f x.value.absolute_path h a.0 a.1)))
        (λ _. good)

  on_handle-IsGood :
      (fs : FileSystem) (o : Option ℕ) (t : Thread)
      → IsGood g t
      → IsGood g (on_handle fs o t).thread
  on_handle-IsGood fs none t s = s
  on_handle-IsGood fs (some handle) t s =
      if_intro (λ (v : Woken). IsGood g v.thread) (is_open handle t.handles) _ _
        (λ o. check_handle-IsGood fs handle (infos_of handle t) t refl o s) (λ _. s)

  pub wake-IsGood :
      (fs : FileSystem) (waited : List ℕ) (r : ℕ) (t : Thread)
      → IsGood g t
      → IsGood g (wake fs waited r t).thread
  unfolding wake
  wake-IsGood fs waited r t s =
      let P = λ (v : Woken). IsGood g v.thread in
      if_intro P (r == 0) _ _
        (λ _.
          if_intro P (t.msg == b'q') _ _ (λ _. IsGood-told g t 0 false s)
            (λ _. IsGood-told g t 0 t.is_running s))
        (λ _. on_handle-IsGood fs (get_elem? waited r) t s)
