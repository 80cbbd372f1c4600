-- ===== src/DbManager/Effects.antt =====
-- What the methods of server/dbmanager.cpp leave of the tables: a query leaves them as they are, and an
-- update changes the table of hosts.
use easysync.Prelude.{
  [], ◌≡◌, refl, true, not, ◌&&◌, some, map, ap, ◌∙◌, if◌then◌else◌, minus_one, List,
}
use easysync.Text.{Text}
use easysync.Database.Literals.{literal}
use easysync.Database.Schema.{Host, user_rows, host_rows, user_id_of}
use easysync.Database.Statements.{
  valid, updated, select_clients, clear_sync, select_must_sync, void_socket, is_host, owned_by,
}
use easysync.Database.Engine.{Engine, IsReliable}
use easysync.DbManager.{
  DbManager, is_connected, set_notify_all_except, clients_to_sync, sync_is_done, is_sync_needed,
  void_connection,
}
use easysync.DbManager.Quote.{sql_quote}
use easysync.DbManager.Queries.{clients_query, needed_query}
use easysync.DbManager.Execution.{tables_of, execute_lem, DbManager-cases, tables_kept}
use easysync.DbManager.Sync.{HasTables, marked}

module _ (e : Engine) where
  -- The tables and the connection stay.
  abbrev pub Stays : DbManager e → DbManager e → Type 0
  Stays m m' = (tables_of e m' ≡ tables_of e m) × (is_connected e m' ≡ is_connected e m)

  pub clients_to_sync-Stays : (m : DbManager e) (u : Text) → Stays m (clients_to_sync e m u []).1
  unfolding clients_to_sync updated
  clients_to_sync-Stays m u =
      DbManager-cases e (λ m. Stays m (clients_to_sync e m u []).1) (λ path. (refl, refl))
        (λ path d.
          (tables_kept e d (select_clients (literal (clients_query (sql_quote u)) 2)) refl, refl))
        m

  pub is_sync_needed-Stays : (m : DbManager e) (h : Text) → Stays m (is_sync_needed e m h).1
  unfolding is_sync_needed updated
  is_sync_needed-Stays m h =
      DbManager-cases e (λ m. Stays m (is_sync_needed e m h).1) (λ path. (refl, refl))
        (λ path d.
          let s = select_must_sync (literal (needed_query (sql_quote h)) 0) in
          (tables_kept e (e.exec d s).db s refl ∙ tables_kept e d s refl, refl))
        m

  -- The users stay, and the hosts are these.
  abbrev pub LeavesHosts : List Host → DbManager e → DbManager e → Type 0
  LeavesHosts hs m m' =
      (is_connected e m' ≡ true)
      × ((tables_of e m').users ≡ (tables_of e m).users)
      × ((tables_of e m').hosts ≡ some hs)

  module _ (r : IsReliable e) (m : DbManager e) (x : HasTables e m) where
    pub void_connection-LeavesHosts :
        (h : Text)
        → LeavesHosts
            (map
              (λ r. if is_host h r then record r { socket_id = minus_one } else r)
              (host_rows (tables_of e m)))
            m
            (void_connection e m h)
    unfolding void_connection updated valid
    void_connection-LeavesHosts h =
        let (done, connected) = execute_lem e r m (void_socket h) x.0 x.2 in
        (connected, ap (λ t. t.users) done, ap (λ t. t.hosts) done)

    pub sync_is_done-LeavesHosts :
        (h : Text)
        → LeavesHosts
            (map
              (λ r. if is_host h r then record r { must_sync = 0 } else r)
              (host_rows (tables_of e m)))
            m
            (sync_is_done e m h)
    unfolding sync_is_done updated valid
    sync_is_done-LeavesHosts h =
        let (done, connected) = execute_lem e r m (clear_sync h) x.0 x.2 in
        (connected, ap (λ t. t.users) done, ap (λ t. t.hosts) done)

    pub set_notify_all_except-LeavesHosts :
        (u h : Text)
        → LeavesHosts
            (map
              (λ r.
                if not (is_host h r)
                  && owned_by (user_id_of (sql_quote u) (user_rows (tables_of e m))) r.user_id
                then record r { must_sync = 1 }
                else r)
              (host_rows (tables_of e m)))
            m
            (set_notify_all_except e m u h)
    unfolding updated
    set_notify_all_except-LeavesHosts u h =
        let (done, tabs) = marked e r m u h x in
        (tabs.0, ap (λ t. t.users) done, ap (λ t. t.hosts) done)
