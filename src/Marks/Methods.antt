-- ===== src/Marks/Methods.antt =====
-- What the methods of server/dbmanager.cpp do to the mark of one host.
use easysync.Prelude.{
  ℕ, ℤ, minus_one, ◌≡◌, refl, Bool, true, false, not, ◌&&◌, ◌||◌, none, List, ap, ◌∙◌,
}
use easysync.Text.{Text, text_eq}
use easysync.Text.Format.{NoPercent}
use easysync.Database.Schema.{user_id_of, User, Host, user_rows, host_rows, exists}
use easysync.Database.Statements.{owned_by}
use easysync.Database.Engine.{Engine, IsReliable}
use easysync.DbManager.{
  DbManager, sync_is_done, set_notify_all_except, add_hostname, void_connection,
}
use easysync.DbManager.Effects.{
  Stays, LeavesHosts, void_connection-LeavesHosts, sync_is_done-LeavesHosts,
  set_notify_all_except-LeavesHosts,
}
use easysync.DbManager.Execution.{tables_of}
use easysync.DbManager.Quote.{sql_quote, sql_quote-eq_self, has_quote}
use easysync.DbManager.Register.{add_hostname_lem}
use easysync.DbManager.Sync.{HasTables}
use easysync.DbManager.Users.{is_known}
use easysync.Marks.{is_over, notifies, mark, is_of, due}
use easysync.Marks.Tables.{is_of-update, due-clear, due-mark, due-socket, joined_lem}

module _ (e : Engine) (users : List User) (owner : ℕ) (host : Text) where
  -- The database has its tables, these users, and the host, with this mark.
  pub record Shows (b : Bool) (m : DbManager e) : Type 0 where
    pub tabs : HasTables e m
    pub known : user_rows (tables_of e m) ≡ users
    pub listed : is_of owner host (host_rows (tables_of e m)) ≡ true
    pub marked : due host (host_rows (tables_of e m)) ≡ b

  pub Stays-Shows : (b : Bool) (m m' : DbManager e) → Stays e m m' → Shows b m → Shows b m'
  Stays-Shows b m m' (t, c) s = record {
    tabs = (
      c ∙ s.tabs.0,
      ap (λ t. exists t.users) t ∙ s.tabs.1,
      ap (λ t. exists t.hosts) t ∙ s.tabs.2,
    );
    known = ap user_rows t ∙ s.known;
    listed = ap (λ t. is_of owner host (host_rows t)) t ∙ s.listed;
    marked = ap (λ t. due host (host_rows t)) t ∙ s.marked;
  }

  LeavesHosts-Shows :
      (b b' : Bool) (m m' : DbManager e) (hs : List Host)
      → LeavesHosts e hs m m'
      → is_of owner host hs ≡ is_of owner host (host_rows (tables_of e m))
      → due host hs ≡ b'
      → Shows b m
      → Shows b' m'
  LeavesHosts-Shows b b' m m' hs (c, u, h) of marked s = record {
    tabs = (c, ap exists u ∙ s.tabs.1, ap exists h);
    known = ap (λ o. user_rows (record { users = o; hosts = none })) u ∙ s.known;
    listed =
        ap (λ o. is_of owner host (host_rows (record { users = none; hosts = o }))) h
        ∙ of
        ∙ s.listed;
    marked = ap (λ o. due host (host_rows (record { users = none; hosts = o }))) h ∙ marked;
  }

module _ (e : Engine) (rel : IsReliable e) (users : List User) (owner : ℕ) (host : Text)
    (plain : has_quote host ≡ false) where
  pub sync_is_done-Shows :
      (b : Bool) (m : DbManager e) (h : Text)
      → Shows e users owner host b m
      → Shows e users owner host (mark users owner host (is_over h) b) (sync_is_done e m h)
  sync_is_done-Shows b m h s =
      let hs = host_rows (tables_of e m) in
      LeavesHosts-Shows e users owner host b _ m _ _ (sync_is_done-LeavesHosts e rel m s.tabs h)
        (is_of-update owner host _ (λ r. record r { must_sync = 0 }) hs (λ r. (refl, refl)))
        (due-clear owner host h hs ∙ ap (λ b. not (text_eq h host) && b) s.marked) s

  pub set_notify_all_except-Shows :
      (b : Bool) (m : DbManager e) (u h : Text)
      → has_quote u ≡ false
      → Shows e users owner host b m
      → Shows e users owner host
          (mark users owner host (notifies u h) b)
          (set_notify_all_except e m u h)
  set_notify_all_except-Shows b m u h q s =
      let hs = host_rows (tables_of e m) in
      let same : user_id_of (sql_quote u) (user_rows (tables_of e m)) ≡ user_id_of u users =
        ap (λ n. user_id_of n (user_rows (tables_of e m))) (sql_quote-eq_self u q)
        ∙ ap (user_id_of u) s.known in
      LeavesHosts-Shows e users owner host b _ m _ _
        (set_notify_all_except-LeavesHosts e rel m s.tabs u h)
        (is_of-update owner host _ (λ r. record r { must_sync = 1 }) hs (λ r. (refl, refl)))
        (due-mark owner host (user_id_of (sql_quote u) (user_rows (tables_of e m))) h hs s.listed
          ∙ ap (λ o. (not (text_eq h host) && owned_by o owner) || due host hs) same
          ∙ ap (λ b. (not (text_eq h host) && owned_by (user_id_of u users) owner) || b) s.marked)
        s

  pub void_connection-Shows :
      (b : Bool) (m : DbManager e) (h : Text)
      → Shows e users owner host b m
      → Shows e users owner host b (void_connection e m h)
  void_connection-Shows b m h s =
      let hs = host_rows (tables_of e m) in
      LeavesHosts-Shows e users owner host b b m _ _ (void_connection-LeavesHosts e rel m s.tabs h)
        (is_of-update owner host _ (λ r. record r { socket_id = minus_one }) hs (λ r. (refl, refl)))
        (due-socket owner host minus_one h hs ∙ s.marked) s

  pub add_hostname-Shows :
      (b : Bool) (m : DbManager e) (u h : Text) (i : ℤ)
      → is_known u (tables_of e m) ≡ true
      → has_quote u ≡ false
      → NoPercent u
      → Shows e users owner host b m
      → Shows e users owner host b (add_hostname e m u h i).1
  add_hostname-Shows b m u h i known quote percent s =
      let (ok, c, us, hs) = add_hostname_lem e rel m u h i s.tabs known quote percent in
      let (of, d) = joined_lem owner host u h i (tables_of e m) plain s.listed in
      LeavesHosts-Shows e users owner host b b m _ _ (c, us, hs) of (d ∙ s.marked) s
