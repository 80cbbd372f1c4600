-- ===== src/Exchange/Notify.antt =====
-- A notification of one client, and the request that another client finds in its buffer.
use easysync.Prelude.{
  ℕ, pos, int_eq, ◌≡◌, refl, true, false, not, All, length, subst, ◌&&◌, any, [], ◌++◌, ap, ◌∙◌,
  sym, if◌then◌else◌,
}
use easysync.Text.{Text, text_eq_refl}
use easysync.Database.Engine.{Engine}
use easysync.DbManager.Selects.{contains}
use easysync.Server.{Server}
use easysync.Server.Lists.{returns, at_index}
use easysync.Database.Engine.{IsReliable}
use easysync.Database.Schema.{host_rows, exists}
use easysync.Text.Scan.{Unicode, IsName}
use easysync.DbManager.{
  DbManager, is_connected, is_user_valid, set_notify_all_except, clients_to_sync,
}
use easysync.DbManager.Execution.{tables_of}
use easysync.DbManager.Quote.{has_quote, sql_quote-eq_self}
use easysync.DbManager.Users.{is_known, tables-is_user_valid, is_user_valid_lem}
use easysync.DbManager.Sync.{HasTables, other_host_of}
use easysync.DbManager.Asked.{clients_to_sync-set_notify_all_except, clients_to_sync-All}
use easysync.Server.{handle_line, handle_notify_all, notify_clients}
use easysync.Server.Changes.{clients}
use easysync.Server.Messages.{notification, is_pingpong}
use easysync.Server.Protocol.{NoOpen, NoNewline, get_user_info-notification}
use easysync.Server.Reading.{IsAligned}
use easysync.Server.Totality.{InRange, notify_each-Returns}
use easysync.Text.Format.{NoPercent}
use easysync.Client.State
use easysync.Client.State.{Client}
use easysync.Client.{read_from_server, start_synchronisation}
use easysync.Client.Requests.{read_from_server-sync_request}
use easysync.Client.Watcher.{Folders}
use easysync.Text.Wire.{Wire, IsAscii, KeepsAscii}
use easysync.Server.Messages.{sync_request}
use easysync.Exchange.{written, begun, start_synchronisation-begun}
use easysync.Exchange.Greeting.{sync_request-IsAscii}
use easysync.Exchange.Requests.{Notified, Owns, notify_each-Notified}

-- What the two names of a notification have to be to come through.
pub record IsPlainNotification (k : Unicode) (u h : Text) : Type 0 where
  pub user_name : IsName k u
  pub user_open : NoOpen u
  pub user_percent : NoPercent u
  pub host_name : IsName k h
  pub no_ping : is_pingpong (notification u h) ≡ false

module _ (w : Wire) (e : Engine) (rel : IsReliable e) (k : Unicode) (s : Server e)
    (socket now b i : ℕ) (u h : Text) (disk : Folders) (d : Client)
    (tabs : HasTables e s.db_manager) (known : is_known u (tables_of e s.db_manager) ≡ true)
    (plain : has_quote u ≡ false) (names : IsPlainNotification k u h)
    (aligned : IsAligned (clients e s))
    (in_range : All
      (λ r. InRange (length s.client_connections) r.socket_id)
      (host_rows (tables_of e s.db_manager)))
    (own : Owns w e b i d.hostname s) (here : at_index s.client_connections i ≡ returns b)
    (listed : any
        (λ r. other_host_of e u h (tables_of e s.db_manager) r && int_eq r.socket_id (pos i))
        (host_rows (tables_of e s.db_manager))
      ≡ true) where
  -- The database manager behind isUserValid, and behind setNotifyAllExcept.
  abbrev checked : DbManager e
  checked = (is_user_valid e s.db_manager u).1

  asked : DbManager e
  asked = set_notify_all_except e checked u h

  checked-tables :
      (tables_of e checked ≡ tables_of e s.db_manager)
      × (is_connected e checked ≡ is_connected e s.db_manager)
  checked-tables = tables-is_user_valid e s.db_manager u

  checked-HasTables : HasTables e checked
  checked-HasTables = (
    checked-tables.1 ∙ tabs.0,
    ap (λ t. exists t.users) checked-tables.0 ∙ tabs.1,
    ap (λ t. exists t.hosts) checked-tables.0 ∙ tabs.2,
  )

  sockets-InRange : All (InRange (length s.client_connections)) (clients_to_sync e asked u []).0
  unfolding asked
  sockets-InRange =
      clients_to_sync-All e rel (InRange (length s.client_connections)) checked u h
        checked-HasTables
        (subst (λ t. All (λ r. InRange (length s.client_connections) r.socket_id) (host_rows t))
          (sym checked-tables.0) in_range)

  contains-asked : contains (pos i) (clients_to_sync e asked u []).0 ≡ true
  unfolding asked
  contains-asked =
      clients_to_sync-set_notify_all_except e rel checked u h i checked-HasTables
        (ap (λ n. is_known n (tables_of e checked)) (sql_quote-eq_self u plain)
          ∙ ap (is_known u) checked-tables.0
          ∙ known)
        (ap (λ t. any (λ r. other_host_of e u h t r && int_eq r.socket_id (pos i)) (host_rows t))
            checked-tables.0
          ∙ listed)

  valid : (is_user_valid e s.db_manager u).0 ≡ true
  valid =
      is_user_valid_lem e rel s.db_manager u (tabs.0, tabs.1)
      ∙ ap (λ b. b && not (has_quote u)) known
      ∙ ap not plain

  asks :
      Notified w e b i d.hostname s true
        (handle_notify_all e u h (record s { db_manager = (is_user_valid e s.db_manager u).1 }))
  unfolding handle_notify_all notify_clients asked
  asks =
      let (ids, m) = clients_to_sync e asked u [] in
      let s' : Server e = record s { db_manager = m } in
      let n =
        notify_each-Notified w e b i d.hostname ids s' own here
          (notify_each-Returns e ids s' aligned sockets-InRange) in
      record {
        after = n.after;
        returned = n.returned;
        rest = n.rest;
        wrote = n.wrote;
        first = λ _. n.first contains-asked;
      }

  handle_line-notification :
      Notified w e b i d.hostname s true (handle_line e k socket now (notification u h) s)
  unfolding handle_line
  handle_line-notification =
      let (info, number) =
        get_user_info-notification k u h names.user_name names.user_open names.user_percent
          names.host_name in
      rw (names.no_ping, number, info, valid) asks

  -- Behind a reliable database with both tables, from aligned lists and with every socket number
  -- of the table -1 or a place in them, the handler of a client's notification returns, where the
  -- user is known, both names come through and no quote is in the user's. If a host of that user
  -- other than the sender is listed at the place of a socket, and the lists have the name of the
  -- client behind that socket wherever they have the socket, then what is written to the socket
  -- makes that client, if it is idle and its host name is an ASCII name of the protocol, begin a
  -- synchronisation that is to notify no one.
  pub notification_round :
      KeepsAscii w
      → IsName k d.hostname
      → NoNewline d.hostname
      → IsAscii d.hostname
      → d.sync_in_progress ≡ false
      → (s' : Server e) × (handle_line e k socket now (notification u h) s ≡ returns s')
        × (answer : Text) × (written w b s'.actions ≡ written w b s.actions ++ answer)
        × (more : Text) × (read_from_server k disk answer d ≡ (more, begun disk d))
  notification_round safe name line ascii idle =
      let n = handle_line-notification in
      let (more, starts) = n.first refl in
      (
        n.after,
        n.returned,
        n.rest,
        n.wrote,
        more,
        ap (λ t. read_from_server k disk t d) starts
            ∙ ap (λ t. read_from_server k disk (t ++ more) d)
                (safe.client_gets (sync_request d.hostname) (sync_request-IsAscii d.hostname ascii))
            ∙ read_from_server-sync_request k disk d.hostname d more name line
            ∙ ap
                (λ v. (
                  more,
                  if v then start_synchronisation disk false d else State.emit State.disconnects d,
                ))
                (text_eq_refl d.hostname)
            ∙ ap (λ c. (more, c)) (start_synchronisation-begun disk d idle),
      )
