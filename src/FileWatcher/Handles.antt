-- ===== src/FileWatcher/Handles.antt =====
-- The handles of a thread of client/qt/mfilesystemwatcher_win.cpp, beside its event: which come and go.
use easysync.Prelude.{
  ℕ, ◌+◌, ◌≡◌, ◌≢◌, refl, Bool, true, some, List, [], ◌∷◌, ◌++◌, ◌==◌, ==_iff, ap, ◌∙◌, sym, arith,
  Bool-cases, inl, inr, All,
}
use easysync.Text.{Text, text_eq, text_eq_iff}
use easysync.Server.Departure.{count}
use easysync.FileWatcher.Hash.{Hash, lookup, insert, lookup-insert, lookup-erase}
use easysync.FileWatcher.Thread.{
  Handle, PathInfo, Thread, nat_eq, infos_of, set_infos, remove_first, close_handle, new_thread,
  behind_event, delete_thread, delete_each,
}
use easysync.FileWatcher.Adding.{Request, take_handle, flags_of}
use easysync.FileWatcher.Sound.{is_open, infos_of-set_infos}

pub count-append :
    (k : ℕ) (xs ys : List ℕ) → count nat_eq k (xs ++ ys) ≡ count nat_eq k xs + count nat_eq k ys
count-append k [] ys = omega arith
count-append k (x ∷ xs) ys = omega (arith, count-append k xs ys)

count-remove_first :
    (k x : ℕ) (xs : List ℕ)
    → is_open x xs ≡ true
    → count nat_eq k (x ∷ []) + count nat_eq k (remove_first x xs) ≡ count nat_eq k xs
count-remove_first k x [] h = cc
count-remove_first k x (y ∷ ys) h = elim (Bool-cases (y == x)) [
  | inl p ↦ ground (arith, ==_iff y x)
  | inr p ↦ ground (arith, count-remove_first k x ys)
]

module _ (event : ℕ) where
  -- A thread has its event in front, and no paths and no folder at it.
  pub record HasEvent (t : Thread) : Type 0 where
    pub first : t.handles ≡ event ∷ behind_event t.handles
    pub no_infos : infos_of event t ≡ []
    pub no_folder :
        (folder : Text) (h : Handle)
        → lookup text_eq folder t.handle_for_dir ≡ some h
        → h.handle ≢ event

  -- What the thread becomes has its event, and these handles more and those less.
  pub record Passes (given closed : List ℕ) (t t' : Thread) : Type 0 where
    pub event_kept : HasEvent t'
    pub sum :
        (k : ℕ)
        → count nat_eq k closed + count nat_eq k (behind_event t'.handles)
          ≡ count nat_eq k given + count nat_eq k (behind_event t.handles)

  pub Passes-told :
      (t : Thread) (m : ℕ) (b : Bool)
      → HasEvent t
      → Passes [] [] t (record t { msg = m; is_running = b })
  Passes-told t m b e = record {
    event_kept = record { first = e.first; no_infos = e.no_infos; no_folder = e.no_folder };
    sum = λ k. refl;
  }

  set_infos-HasEvent :
      (j : ℕ) (h : Hash Text PathInfo) (t : Thread)
      → j ≢ event
      → HasEvent t
      → HasEvent (set_infos j h t)
  set_infos-HasEvent j h t n e = record {
    first = e.first;
    no_infos = infos_of-set_infos j event h t ∙ ground (arith, ==_iff j event, e.no_infos);
    no_folder = e.no_folder;
  }

  pub Passes-set_infos :
      (j : ℕ) (h : Hash Text PathInfo) (t : Thread)
      → j ≢ event
      → HasEvent t
      → Passes [] [] t (set_infos j h t)
  Passes-set_infos j h t n e = record { event_kept = set_infos-HasEvent j h t n e; sum = λ k. refl }

  pub Passes-close_handle :
      (j : ℕ) (folder : Text) (t : Thread)
      → j ≢ event
      → is_open j t.handles ≡ true
      → HasEvent t
      → Passes [] (j ∷ []) t (close_handle j folder t)
  Passes-close_handle j folder t n o e =
      let rest = behind_event t.handles in
      let left : remove_first j t.handles ≡ event ∷ remove_first j rest =
        ap (remove_first j) e.first ∙ ground (arith, ==_iff event j) in
      let behind : behind_event (remove_first j t.handles) ≡ remove_first j rest =
        ap behind_event left in
      let there : is_open j rest ≡ true =
        ground (arith, ap (is_open j) e.first, o, ==_iff event j) in
      record {
        event_kept = record {
          first = left ∙ ap (◌∷◌ event) (sym behind);
          no_infos = e.no_infos;
          no_folder = λ f h p.
              e.no_folder f h
                (ground (arith, lookup-erase text_eq text_eq_iff folder f t.handle_for_dir));
        };
        sum = λ k. omega (arith, ap (count nat_eq k) behind, count-remove_first k j rest there);
      }

  pub Passes-take_handle :
      (q : Request) (j : ℕ) (t : Thread)
      → j ≢ event
      → HasEvent t
      → Passes (j ∷ []) [] t (take_handle q j t)
  Passes-take_handle q j t n e =
      let x : Handle = record { handle = j; flags = flags_of q } in
      let folder = q.info.absolute_path in
      let left : t.handles ++ j ∷ [] ≡ event ∷ (behind_event t.handles ++ j ∷ []) =
        ap (λ hs. hs ++ j ∷ []) e.first in
      let behind : behind_event (t.handles ++ j ∷ []) ≡ behind_event t.handles ++ j ∷ [] =
        ap behind_event left in
      let held : HasEvent (record t {
        handles = t.handles ++ j ∷ [];
        handle_for_dir = insert text_eq folder x t.handle_for_dir;
      }) =
        record {
          first = left ∙ ap (◌∷◌ event) (sym behind);
          no_infos = e.no_infos;
          no_folder = λ f h p.
              let found = lookup-insert text_eq text_eq_iff folder f x t.handle_for_dir in
              elim (Bool-cases (text_eq folder f)) [
                | inl q ↦ λ same.
                    let new : h ≡ x = ground arith in
                    n (sym (ap (λ (y : Handle). y.handle) new) ∙ same)
                | inr q ↦ e.no_folder f h (ground arith)
              ];
        } in
      record {
        event_kept = set_infos-HasEvent j _ _ n held;
        sum = λ k.
            omega
              (arith, ap (count nat_eq k) behind, count-append k (behind_event t.handles) (j ∷ []));
      }

  pub new_thread-HasEvent : HasEvent (new_thread event)
  unfolding new_thread
  new_thread-HasEvent = record { first = refl; no_infos = refl; no_folder = λ f h p. cc }

  -- The same of a list of threads.
  pub record Moves (given closed : List ℕ) (ts ts' : List Thread) : Type 0 where
    pub events_kept : All HasEvent ts'
    pub sums :
        (k : ℕ)
        → count nat_eq k closed + count nat_eq k (delete_each ts')
          ≡ count nat_eq k given + count nat_eq k (delete_each ts)

  pub Moves-refl : (ts : List Thread) → All HasEvent ts → Moves [] [] ts ts
  Moves-refl ts a = record { events_kept = a; sums = λ k. refl }

  pub Moves-here :
      (given closed : List ℕ) (t t' : Thread) (ts : List Thread)
      → Passes given closed t t'
      → All HasEvent ts
      → Moves given closed (t ∷ ts) (t' ∷ ts)
  unfolding delete_thread
  Moves-here given closed t t' ts p a = record {
    events_kept = (p.event_kept, a);
    sums = λ k. omega (
      arith,
      count-append k (behind_event t.handles) (delete_each ts),
      count-append k (behind_event t'.handles) (delete_each ts),
      p.sum k,
    );
  }

  pub Moves-later :
      (given closed : List ℕ) (t : Thread) (ts ts' : List Thread)
      → HasEvent t
      → Moves given closed ts ts'
      → Moves given closed (t ∷ ts) (t ∷ ts')
  unfolding delete_thread
  Moves-later given closed t ts ts' e m = record {
    events_kept = (e, m.events_kept);
    sums = λ k. omega (
      arith,
      count-append k (behind_event t.handles) (delete_each ts),
      count-append k (behind_event t.handles) (delete_each ts'),
      m.sums k,
    );
  }

  pub Moves-after :
      (given closed : List ℕ) (before after : List Thread) (t t' : Thread)
      → All HasEvent (before ++ t ∷ after)
      → (HasEvent t → Passes given closed t t')
      → Moves given closed (before ++ t ∷ after) (before ++ t' ∷ after)
  Moves-after given closed [] after t t' a p = Moves-here given closed t t' after (p a.0) a.1
  Moves-after given closed (u ∷ us) after t t' a p =
      Moves-later given closed u _ _ a.0 (Moves-after given closed us after t t' a.1 p)
