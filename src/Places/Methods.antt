-- ===== src/Places/Methods.antt =====
-- What the methods of server/dbmanager.cpp do to the socket numbers.
use easysync.Prelude.{
  ℕ, ◌≤◌, ℤ, pos, negsuc, ◌≡◌, refl, Bool, true, false, Option, none, some, List, [], ◌∷◌, ap, ◌∙◌,
  map, All, All-append, if_intro, if◌then◌else◌, sym, subst, arith,
}
use easysync.Text.{Text}
use easysync.Text.Format.{NoPercent}
use easysync.Database.Schema.{User, Host, user_rows, host_rows, user_id_of, exists}
use easysync.Database.Statements.{new_host}
use easysync.Database.Engine.{Engine, IsReliable}
use easysync.DbManager.{DbManager, sync_is_done, set_notify_all_except, add_hostname}
use easysync.DbManager.Effects.{
  Stays, LeavesHosts, sync_is_done-LeavesHosts, set_notify_all_except-LeavesHosts,
}
use easysync.DbManager.Execution.{tables_of}
use easysync.DbManager.Quote.{sql_quote, has_quote}
use easysync.DbManager.Register.{add_hostname_lem, hosts_with, is_listed}
use easysync.DbManager.Users.{is_known}
use easysync.Server.Totality.{InRange}
use easysync.Places.{IsPlaced}

pub InRange-mono : (n n' : ℕ) (z : ℤ) → n ≤ n' → InRange n z → InRange n' z
InRange-mono n n' (pos i) l h = omega (arith, h)
InRange-mono n n' (negsuc i) l h = h

abbrev RowsIn : ℕ → List Host → Type 0
RowsIn n = All (λ r. InRange n r.socket_id)

RowsIn-mono : (n n' : ℕ) (hs : List Host) → n ≤ n' → RowsIn n hs → RowsIn n' hs
RowsIn-mono n n' [] l a = tt
RowsIn-mono n n' (r ∷ hs) l a = (InRange-mono n n' r.socket_id l a.0, RowsIn-mono n n' hs l a.1)

-- Some rows change.
RowsIn-map :
    (n : ℕ) (p : Host → Bool) (f : Host → Host) (hs : List Host)
    → ((r : Host) → InRange n r.socket_id → InRange n (f r).socket_id)
    → RowsIn n hs
    → RowsIn n (map (λ r. if p r then f r else r) hs)
RowsIn-map n p f [] h a = tt
RowsIn-map n p f (r ∷ hs) h a = (
  if_intro (λ (r : Host). InRange n r.socket_id) (p r) (f r) r (λ _. h r a.0) (λ _. a.0),
  RowsIn-map n p f hs h a.1,
)

new_host-RowsIn : (n : ℕ) (o : Option ℕ) (h : Text) (hs : List Host) → RowsIn n (new_host o h hs)
new_host-RowsIn n none h hs = tt
new_host-RowsIn n (some k) h hs = (refl, tt)

module _ (e : Engine) (users : List User) where
  pub IsPlaced-mono :
      (n n' : ℕ) (m : DbManager e) → n ≤ n' → IsPlaced e users n m → IsPlaced e users n' m
  IsPlaced-mono n n' m l p = record {
    tabs = p.tabs;
    known = p.known;
    in_range = RowsIn-mono n n' (host_rows (tables_of e m)) l p.in_range;
  }

  pub Stays-IsPlaced :
      (n : ℕ) (m m' : DbManager e) → Stays e m m' → IsPlaced e users n m → IsPlaced e users n m'
  Stays-IsPlaced n m m' (t, c) p = record {
    tabs = (
      c ∙ p.tabs.0,
      ap (λ t. exists t.users) t ∙ p.tabs.1,
      ap (λ t. exists t.hosts) t ∙ p.tabs.2,
    );
    known = ap user_rows t ∙ p.known;
    in_range = subst (λ t. RowsIn n (host_rows t)) (sym t) p.in_range;
  }

  LeavesHosts-IsPlaced :
      (n : ℕ) (m m' : DbManager e) (hs : List Host)
      → LeavesHosts e hs m m'
      → RowsIn n hs
      → IsPlaced e users n m
      → IsPlaced e users n m'
  LeavesHosts-IsPlaced n m m' hs (c, u, h) a p = record {
    tabs = (c, ap exists u ∙ p.tabs.1, ap exists h);
    known = ap (λ o. user_rows (record { users = o; hosts = none })) u ∙ p.known;
    in_range = subst (λ o. RowsIn n (host_rows (record { users = none; hosts = o }))) (sym h) a;
  }

module _ (e : Engine) (rel : IsReliable e) (users : List User) (n : ℕ) (m : DbManager e)
    (p : IsPlaced e users n m) where
  pub sync_is_done-IsPlaced : (h : Text) → IsPlaced e users n (sync_is_done e m h)
  sync_is_done-IsPlaced h =
      LeavesHosts-IsPlaced e users n m _ _ (sync_is_done-LeavesHosts e rel m p.tabs h)
        (RowsIn-map n _ (λ r. record r { must_sync = 0 }) (host_rows (tables_of e m)) (λ r a. a)
          p.in_range)
        p

  pub set_notify_all_except-IsPlaced :
      (u h : Text) → IsPlaced e users n (set_notify_all_except e m u h)
  set_notify_all_except-IsPlaced u h =
      LeavesHosts-IsPlaced e users n m _ _ (set_notify_all_except-LeavesHosts e rel m p.tabs u h)
        (RowsIn-map n _ (λ r. record r { must_sync = 1 }) (host_rows (tables_of e m)) (λ r a. a)
          p.in_range)
        p

  -- The number that the host gets has to be -1 or a place too.
  pub add_hostname-IsPlaced :
      (u h : Text) (i : ℤ)
      → is_known u (tables_of e m) ≡ true
      → has_quote u ≡ false
      → NoPercent u
      → InRange n i
      → IsPlaced e users n (add_hostname e m u h i).1
  add_hostname-IsPlaced u h i known quote percent here =
      let t = tables_of e m in
      let new = new_host (user_id_of u (user_rows t)) h (host_rows t) in
      let (ok, c, us, hs) = add_hostname_lem e rel m u h i p.tabs known quote percent in
      let rows : RowsIn n (hosts_with u h t) =
        if_intro (RowsIn n) (is_listed (sql_quote h) t) _ _ (λ _. p.in_range)
          (λ _.
            All-append (λ r. InRange n r.socket_id) (host_rows t) new p.in_range
              (new_host-RowsIn n (user_id_of u (user_rows t)) h (host_rows t))) in
      LeavesHosts-IsPlaced e users n m _ _ (c, us, hs)
        (RowsIn-map n _ (λ r. record r { socket_id = i }) (hosts_with u h t) (λ r a. here) rows) p
