-- ===== src/Client/Progress.antt =====
-- When class Client of client/client.cpp runs unison: the states that its signals and timers reach,
-- and what holds in all of them.
use easysync.Prelude.{
  ℕ, ◌+◌, ◌≡◌, Bool, true, false, [], sym, subst, ap, ◌∙◌, refl, arith, if◌then◌else◌, Bool-cases,
  inl, inr,
}
use easysync.Client.Watcher.{Folders}
use easysync.Client.State.{Client}
use easysync.Client.{start_synchronisation, handle_sync_is_finished, install_watcher, stop_watcher}
use easysync.Client.Phases.{
  Signal, handle, Phase, one_if, phase, start_phase, runs, runs-append, handle-Moves,
  phase-handle_sync_is_finished, phase-start_synchronisation,
}

-- The states that a client reaches from `start`, and how many runs of unison have ended on the way;
-- the process ends only while it runs.
pub data Reaches (start : Client) : ℕ → Client → Type 0 where
  begin : Reaches start 0 start
  then_signal :
      {n : ℕ} {c : Client} (s : Signal) (disk : Folders)
      → Reaches start n c
      → Reaches start n (handle s disk c)
  then_finish :
      {n : ℕ} {c : Client} (disk : Folders)
      → c.sync_in_progress ≡ true
      → Reaches start n c
      → Reaches start (n + 1) (handle_sync_is_finished disk c)

-- Exactly the runs that have not ended are in progress, and a further one is wanted only then.
pub record Balanced (n : ℕ) (p : Phase) : Type 0 where
  pub balance : p.count ≡ n + one_if p.busy
  pub wanted : p.again ≡ true → p.busy ≡ true

start_phase-Balanced : (n : ℕ) (p : Phase) → Balanced n p → Balanced n (start_phase p)
start_phase-Balanced n p b = elim (Bool-cases p.busy) [
  | inl q ↦ record { balance = grind arith; wanted = grind arith }
  | inr q ↦ record { balance = grind arith; wanted = grind arith }
]

finished-Balanced :
    (n : ℕ) (p : Phase)
    → p.busy ≡ true
    → Balanced n p
    → Balanced (n + 1) (
        if p.again
        then record { count = p.count + 1; busy = true; again = false }
        else record { count = p.count; busy = false; again = false })
finished-Balanced n p q b = elim (Bool-cases p.again) [
  | inl a ↦ record { balance = grind arith; wanted = grind arith }
  | inr a ↦ record { balance = grind arith; wanted = grind arith }
]

-- In every state that an idle client reaches by signals and ends of runs, the latter only while one
-- is in progress, unison has been started as often as its runs have ended, and once more exactly
-- while one is in progress, so two never run at once; and a further run is wanted only while one is
-- in progress.
pub Reaches-Balanced :
    (start : Client) (n : ℕ) (c : Client)
    → start.actions ≡ []
    → start.sync_in_progress ≡ false
    → start.need_to_sync ≡ false
    → Reaches start n c
    → Balanced n (phase c)
Reaches-Balanced start n c a p q begin = record { balance = grind arith; wanted = grind arith }
Reaches-Balanced start n c a p q (then_signal {c = d} s disk r) =
    let b = Reaches-Balanced start n d a p q r in
    elim (handle-Moves disk s d) [
      | inl m ↦ subst (Balanced n) (sym m) b
      | inr m ↦ subst (Balanced n) (sym m) (start_phase-Balanced n (phase d) b)
    ]
Reaches-Balanced start n c a p q (then_finish {n = k} {c = d} disk busy r) =
    subst (Balanced (k + 1)) (sym (phase-handle_sync_is_finished disk d))
      (finished-Balanced k (phase d) busy (Reaches-Balanced start k d a p q r))

-- Signals without an end of a run.
pub data Meanwhile (start : Client) : Client → Type 0 where
  asked : Meanwhile start start
  meets_signal :
      {c : Client} (s : Signal) (disk : Folders)
      → Meanwhile start c
      → Meanwhile start (handle s disk c)

-- A run is in progress, a further one is wanted, and this many were started.
abbrev wanting : ℕ → Phase
wanting n = record { count = n; busy = true; again = true }

Meanwhile-wanting :
    (n : ℕ) (start c : Client) → phase start ≡ wanting n → Meanwhile start c → phase c ≡ wanting n
Meanwhile-wanting n start c p asked = p
Meanwhile-wanting n start c p (meets_signal {c = d} s disk x) =
    let before = Meanwhile-wanting n start d p x in
    elim (handle-Moves disk s d) [ inl m ↦ m ∙ before | inr m ↦ m ∙ ap start_phase before ]

-- What a wanted run starts with.
wanted_run :
    (disk : Folders) (c : Client)
    → c.need_to_sync ≡ true
    → (handle_sync_is_finished disk c).notify_all_after_sync ≡ true
unfolding start_synchronisation handle_sync_is_finished install_watcher stop_watcher
wanted_run disk c p = grind (arith, runs-append)

-- A synchronisation that is asked for while one is in progress is not lost, whatever signals come
-- before that one ends: when it ends, unison is started once more and no further run is wanted.
-- Whoever asked, the server included, the new run is one that is to notify all, with
-- notifyAllAfterSync set.
pub handle_sync_is_finished-start_synchronisation :
    (disk disk' : Folders) (b : Bool) (c d : Client)
    → c.sync_in_progress ≡ true
    → Meanwhile (start_synchronisation disk b c) d
    → let c' = handle_sync_is_finished disk' d in
      (runs c'.actions ≡ runs c.actions + 1)
      × (c'.sync_in_progress ≡ true)
      × (c'.need_to_sync ≡ false)
      × (c'.notify_all_after_sync ≡ true)
handle_sync_is_finished-start_synchronisation disk disk' b c d busy x =
    let wants : phase (start_synchronisation disk b c) ≡ wanting (runs c.actions) =
      phase-start_synchronisation disk b c ∙ rw busy refl in
    let still = Meanwhile-wanting (runs c.actions) _ d wants x in
    let wanted : d.need_to_sync ≡ true = ap (λ (p : Phase). p.again) still in
    let done = phase-handle_sync_is_finished disk' d ∙ rw wanted refl in
    (
      ap (λ (p : Phase). p.count) done ∙ ap (λ (p : Phase). p.count + 1) still,
      ap (λ (p : Phase). p.busy) done,
      ap (λ (p : Phase). p.again) done,
      wanted_run disk' d wanted,
    )
