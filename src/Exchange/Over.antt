-- ===== src/Exchange/Over.antt =====
-- A client that is done with a synchronisation which the server has asked for.
use easysync.Prelude.{
  ℕ, ◌≡◌, refl, true, false, List, [], ◌∷◌, ◌++◌, ◌==◌, ◌∙◌, Bool-cases, inl, inr, append-nil, ◌&&◌,
  not, any, arith, ap, All-of-any,
}
use easysync.Text.{Text, is_empty}
use easysync.Text.Scan.{Unicode, leading_number}
use easysync.Database.Schema.{Host, host_rows}
use easysync.Database.Statements.{is_host}
use easysync.Database.Engine.{Engine, IsReliable}
use easysync.DbManager.{DbManager, is_sync_needed, sync_is_done}
use easysync.DbManager.Execution.{tables_of}
use easysync.DbManager.Quote.{has_quote, sql_quote-eq_self}
use easysync.DbManager.Sync.{HasTables, is_sync_needed-sync_is_done}
use easysync.Server.{Server, read_client, handle_over}
use easysync.Server.Lists.{returns, at, index_of}
use easysync.Server.Messages.{roger, read_line, is_pingpong, id_of}
use easysync.Client.State.{Client}
use easysync.Client.Watcher.{Folders}
use easysync.Client.{handle_sync_is_finished, start_synchronisation, install_watcher, stop_watcher}
use easysync.Text.Wire.{Wire, IsAscii, KeepsAscii, beyond_ascii}
use easysync.Exchange.{sent, sent-append}

-- Both ends of the connection have the same text for it.
roger-IsAscii : IsAscii roger
roger-IsAscii = All-of-any beyond_ascii roger refl

sent-handle_sync_is_finished :
    (w : Wire) (disk : Folders) (c : Client)
    → c.socket_ready ≡ true
    → c.notify_all_after_sync ≡ false
    → sent w (handle_sync_is_finished disk c).actions ≡ sent w c.actions ++ w.to_server roger
unfolding handle_sync_is_finished start_synchronisation install_watcher stop_watcher
sent-handle_sync_is_finished w disk c ready quiet = elim (Bool-cases (is_empty c.sync_dir)) [
  | inl e ↦ elim (Bool-cases c.need_to_sync) [
    | inl p ↦ rw (e, ready, quiet, p, e) (simp (sent-append, append-nil))
    | inr p ↦
        rw (e, ready, quiet, p)
          (sent-append w c.actions _
            ∙ ap (λ t. sent w c.actions ++ t) (append-nil (w.to_server roger)))
  ]
  | inr e ↦ elim (Bool-cases c.need_to_sync) [
    | inl p ↦ rw (e, ready, quiet, p, e) (simp (sent-append, append-nil))
    | inr p ↦
        rw (e, ready, quiet, p)
          (sent-append w c.actions _
            ∙ ap (λ t. sent w c.actions ++ t) (append-nil (w.to_server roger)))
  ]
]

none_due :
    (h : Text) (hs : List Host)
    → any (λ r. is_host h r && not (is_host h r) && r.must_sync == 1) hs ≡ false
none_due h [] = refl
none_due h (r ∷ hs) = ground (arith, none_due h hs)

module _ (e : Engine) (rel : IsReliable e) (k : Unicode) (s : Server e) (socket now : ℕ)
    (disk : Folders) (c : Client) (open_ : s.disabled ≡ false) (tabs : HasTables e s.db_manager)
    (plain : has_quote c.hostname ≡ false)
    (known : at s.peer_names (index_of s.client_connections socket) ≡ returns c.hostname)
    (ready : c.socket_ready ≡ true) (asked : c.notify_all_after_sync ≡ false) (w : Wire)
    (safe : KeepsAscii w) where
  read-roger :
      read_client e k socket now roger s
      ≡ returns ([], record s { db_manager = sync_is_done e s.db_manager c.hostname })
  unfolding read_client handle_over id_of leading_number read_line is_pingpong
  read-roger = rw (open_, known) refl

  done : (is_sync_needed e (sync_is_done e s.db_manager c.hostname) c.hostname).0 ≡ false
  done =
      is_sync_needed-sync_is_done e rel s.db_manager c.hostname c.hostname tabs
      ∙ rw (sql_quote-eq_self c.hostname plain)
          (none_due c.hostname (host_rows (tables_of e s.db_manager)))

  -- A connected client that finishes a synchronisation which was to notify no one sends one
  -- message. A server that is not disabled, behind a reliable database with both tables, and that
  -- has the client's host name, which holds no quote, at the place of its socket, reads the whole
  -- message, changes nothing but its database, and from then on the client's host does not have
  -- to synchronise.
  pub over_round :
      (message : Text) × (sent w (handle_sync_is_finished disk c).actions
        ≡ sent w c.actions ++ message)
      × (m : DbManager e) × (read_client e k socket now message s
          ≡ returns ([], record s { db_manager = m }))
      × ((is_sync_needed e m c.hostname).0 ≡ false)
  over_round = (
    roger,
    sent-handle_sync_is_finished w disk c ready asked
        ∙ ap (λ t. sent w c.actions ++ t) (safe.server_gets roger roger-IsAscii),
    sync_is_done e s.db_manager c.hostname,
    read-roger,
    done,
  )
