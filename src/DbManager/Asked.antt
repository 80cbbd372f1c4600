-- ===== src/DbManager/Asked.antt =====
-- Whom a notification reaches: clientsToSync of server/dbmanager.cpp behind setNotifyAllExcept.
use easysync.Prelude.{
  ℕ, ℤ, pos, minus_one, int_eq, int_eq_iff, any_mono, [], ◌∷◌, All, Bool-cases, inl, inr, subst,
  ap₂, ◌≡◌, true, ◌&&◌, List, any, arith, if◌then◌else◌, ap, ◌∙◌, any-map,
}
use easysync.Text.{Text}
use easysync.Database.Schema.{Tables, Host, host_rows}
use easysync.Database.Statements.{updated}
use easysync.Database.Engine.{Engine, IsReliable}
use easysync.DbManager.{DbManager, set_notify_all_except, clients_to_sync}
use easysync.DbManager.Quote.{sql_quote}
use easysync.DbManager.Execution.{tables_of}
use easysync.DbManager.Users.{is_known}
use easysync.DbManager.Selects.{contains, due_at}
use easysync.DbManager.Sync.{HasTables, other_host_of, marked, clients_to_sync_lem}

All-of-contains : (P : ℤ → Type 0) (is : List ℤ) → ((i : ℤ) → contains i is ≡ true → P i) → All P is
All-of-contains P [] f = tt
All-of-contains P (i ∷ is) f =
    (f i (ground (arith, int_eq_iff i i)), All-of-contains P is λ j c. f j (ground (arith, c)))

module _ (e : Engine) where
  numbered :
      (P : ℤ → Type 0) (i : ℤ) (u h : Text) (t : Tables) (hs : List Host)
      → All (λ r. P r.socket_id) hs
      → any (λ r. due_at i (if other_host_of e u h t r then record r { must_sync = 1 } else r)) hs
        ≡ true
      → P i
  numbered P i u h t [] a p = cc
  numbered P i u h t (r ∷ hs) a p = elim (Bool-cases (int_eq r.socket_id i)) [
    | inl q ↦ subst P ((int_eq_iff r.socket_id i).0 q) a.0
    | inr q ↦ numbered P i u h t hs a.1 (ground (arith, q, p))
  ]

  asked_after_mark :
      (i : ℕ) (u h : Text) (t : Tables) (r : Host)
      → let r' = if other_host_of e u h t r then record r { must_sync = 1 } else r in
        (other_host_of e u h t r && int_eq r.socket_id (pos i)) ≡ true → due_at (pos i) r' ≡ true
  asked_after_mark i u h t r p =
      ground (arith, int_eq_iff r.socket_id (pos i), int_eq_iff r.socket_id minus_one)

  -- The sockets that clientsToSync finds after setNotifyAllExcept.
  clients_after_mark :
      IsReliable e
      → (m : DbManager e) (u h : Text) (i : ℤ) → HasTables e m
      → let t = tables_of e m in
        contains i (clients_to_sync e (set_notify_all_except e m u h) u []).0 ≡ (
          any
            (λ r. due_at i (if other_host_of e u h t r then record r { must_sync = 1 } else r))
            (host_rows t)
          && is_known (sql_quote u) t)
  unfolding updated
  clients_after_mark r m u h i x =
      let k = marked e r m u h x in
      let t = tables_of e m in
      clients_to_sync_lem e r (set_notify_all_except e m u h) u [] i k.1
      ∙ ap (λ t. any (due_at i) (host_rows t) && is_known (sql_quote u) t) k.0
      ∙ ap (λ b. b && is_known (sql_quote u) t)
          (any-map (due_at i)
            (λ r. if other_host_of e u h t r then record r { must_sync = 1 } else r) (host_rows t))

  -- A connected host that setNotifyAllExcept marks is among those that clientsToSync finds.
  pub clients_to_sync-set_notify_all_except :
      IsReliable e
      → (m : DbManager e) (u h : Text) (i : ℕ) → HasTables e m
      → is_known (sql_quote u) (tables_of e m) ≡ true
      → any
          (λ r. other_host_of e u h (tables_of e m) r && int_eq r.socket_id (pos i))
          (host_rows (tables_of e m))
        ≡ true
      → contains (pos i) (clients_to_sync e (set_notify_all_except e m u h) u []).0 ≡ true
  clients_to_sync-set_notify_all_except r m u h i x known listed =
      clients_after_mark r m u h (pos i) x
      ∙ ap₂ (λ a b. a && b)
          (any_mono (λ r. other_host_of e u h (tables_of e m) r && int_eq r.socket_id (pos i)) _
            (host_rows (tables_of e m)) (asked_after_mark i u h (tables_of e m)) listed)
          known

  -- They are numbers of the table.
  pub clients_to_sync-All :
      IsReliable e
      → (P : ℤ → Type 0) (m : DbManager e) (u h : Text) → HasTables e m
      → All (λ r. P r.socket_id) (host_rows (tables_of e m))
      → All P (clients_to_sync e (set_notify_all_except e m u h) u []).0
  clients_to_sync-All r P m u h x a =
      All-of-contains P (clients_to_sync e (set_notify_all_except e m u h) u []).0 λ i c.
        numbered P i u h (tables_of e m) (host_rows (tables_of e m)) a
          (ground (arith, c, clients_after_mark r m u h i x))
