-- ===== src/Exchange/Greeting.antt =====
-- A client that greets the server: the request that it gets back, and what it makes of it.
use easysync.Prelude.{
  ℕ, ◌≡◌, refl, Bool, true, false, List, [], ◌++◌, ==_refl, ap, ◌∙◌, if◌then◌else◌, any, All-append,
  All-of-any, sym, subst,
}
use easysync.Text.{Text, codes, text_eq, text_eq_refl}
use easysync.Text.Scan.{Unicode}
use easysync.Database.Schema.{Tables, exists}
use easysync.Database.Engine.{Engine, IsReliable}
use easysync.DbManager.{is_user_valid}
use easysync.DbManager.Execution.{tables_of}
use easysync.DbManager.Quote.{has_quote}
use easysync.DbManager.Users.{is_known, tables-is_user_valid}
use easysync.DbManager.Sync.{HasTables}
use easysync.DbManager.Register.{hosts_with}
use easysync.Server
use easysync.Server.{Server, register, read_client}
use easysync.Server.Lists.{returns}
use easysync.Server.Messages.{greeting, sync_request, read_line}
use easysync.Server.Registration.{
  IsPlainGreeting, must_sync, requests, read_client-greeting, register-actions,
}
use easysync.Client.State
use easysync.Client.State.{Client}
use easysync.Client.Watcher.{Folders}
use easysync.Client.{send_greetings, read_from_server, start_synchronisation}
use easysync.Client.Requests.{read_from_server-sync_request}
use easysync.Text.Format.{NoPercent}
use easysync.Text.Wire.{Wire, IsAscii, KeepsAscii, beyond_ascii}
use easysync.Server.Protocol.{greeting_text, sync_request_text}
use easysync.Exchange.{sent, written, written-append, begun, start_synchronisation-begun}

-- The texts around the names are ASCII.
abbrev ascii_literal : (t : Text) → any beyond_ascii t ≡ false → IsAscii t
ascii_literal = All-of-any beyond_ascii

IsAscii-append : (s t : Text) → IsAscii s → IsAscii t → IsAscii (s ++ t)
IsAscii-append = All-append (λ c. beyond_ascii c ≡ false)

greeting-IsAscii : (u h : Text) → NoPercent u → IsAscii u → IsAscii h → IsAscii (greeting u h)
greeting-IsAscii u h percent user host = subst IsAscii (sym (greeting_text u h percent)) (
    IsAscii-append (codes "1. Robin, <") _ (ascii_literal (codes "1. Robin, <") refl) (
      IsAscii-append u _ user (
        IsAscii-append (codes "> from <") _ (ascii_literal (codes "> from <") refl)
          (IsAscii-append h _ host (ascii_literal (codes "> is on position!\n") refl)))))

pub sync_request-IsAscii : (h : Text) → IsAscii h → IsAscii (sync_request h)
sync_request-IsAscii h host = subst IsAscii (sym (sync_request_text h)) (
    IsAscii-append (codes "2. <") _ (ascii_literal (codes "2. <") refl)
      (IsAscii-append h _ host (ascii_literal (codes ">, sync is needed.\n") refl)))

module _ (e : Engine) (s : Server e) where
  -- The server once it has read the greeting.
  abbrev pub registered : ℕ → ℕ → Client → Server e
  registered socket now c =
      register e socket c.username c.hostname now
        (record s { db_manager = (is_user_valid e s.db_manager c.username).1 })

  -- A row of the client's host has to synchronise, the row that the registration adds included.
  abbrev pub is_due : Client → Bool
  is_due c = must_sync c.hostname (hosts_with c.username c.hostname (tables_of e s.db_manager))

module _ (e : Engine) (rel : IsReliable e) (k : Unicode) (s : Server e) (socket now : ℕ)
    (disk : Folders) (c : Client) (open_ : s.disabled ≡ false) (tabs : HasTables e s.db_manager)
    (known : is_known c.username (tables_of e s.db_manager) ≡ true)
    (plain : has_quote c.username ≡ false) (names : IsPlainGreeting k c.username c.hostname)
    (ready : c.socket_ready ≡ true) (quiet : c.actions ≡ []) (idle : c.sync_in_progress ≡ false)
    (w : Wire) (safe : KeepsAscii w) (user_ascii : IsAscii c.username)
    (host_ascii : IsAscii c.hostname) where
  sent-send_greetings : sent w (send_greetings c).actions ≡ greeting c.username c.hostname ++ []
  unfolding send_greetings
  sent-send_greetings =
      rw (ready, quiet)
        (ap (λ t. t ++ [])
          (safe.server_gets (greeting c.username c.hostname)
            (greeting-IsAscii c.username c.hostname names.user_percent user_ascii host_ascii)))

  hostname-send_greetings : (send_greetings c).hostname ≡ c.hostname
  unfolding send_greetings
  hostname-send_greetings = rw ready refl

  read-greeting :
      read_client e k socket now (sent w (send_greetings c).actions) s
      ≡ returns ([], registered e s socket now c)
  read-greeting =
      ap (λ buffer. read_client e k socket now buffer s) sent-send_greetings
      ∙ read_client-greeting e rel k s socket now c.username c.hostname [] open_ tabs known plain
          names

  written-registered :
      written w socket (registered e s socket now c).actions
      ≡ written w socket s.actions ++ written w socket (requests socket c.hostname (is_due e s c))
  written-registered =
      let m = (is_user_valid e s.db_manager c.username).1 in
      let (same, connected) = tables-is_user_valid e s.db_manager c.username in
      let tabs' : HasTables e m = (
        connected ∙ tabs.0,
        ap (λ t. exists t.users) same ∙ tabs.1,
        ap (λ t. exists t.hosts) same ∙ tabs.2,
      ) in
      let asks : Tables → List Server.Action = λ t.
        requests socket c.hostname (must_sync c.hostname (hosts_with c.username c.hostname t)) in
      ap (written w socket) (
        register-actions e rel (record s { db_manager = m }) socket c.username c.hostname now tabs'
          (ap (is_known c.username) same ∙ known) plain names.user_percent
        ∙ ap (λ t. s.actions ++ asks t) same)
      ∙ written-append w socket s.actions (requests socket c.hostname (is_due e s c))

  idle-send_greetings : (send_greetings c).sync_in_progress ≡ false
  unfolding send_greetings
  idle-send_greetings = rw ready idle

  read-requests :
      (b : Bool)
      → read_from_server k disk (written w socket (requests socket c.hostname b)) (send_greetings c)
        ≡ ([], if b then begun disk (send_greetings c) else send_greetings c)
  unfolding read_from_server read_line
  read-requests true =
      let c' = send_greetings c in
      ap
        (λ b.
          read_from_server k disk (if b then w.to_client (sync_request c.hostname) ++ [] else [])
            c')
        (==_refl socket)
      ∙ ap (λ t. read_from_server k disk (t ++ []) c')
          (safe.client_gets (sync_request c.hostname) (sync_request-IsAscii c.hostname host_ascii))
      ∙ read_from_server-sync_request k disk c.hostname c' [] names.host_name names.host_line
      ∙ ap
          (λ b. (
            [],
            if b then start_synchronisation disk false c' else State.emit State.disconnects c',
          ))
          (ap (text_eq c.hostname) hostname-send_greetings ∙ text_eq_refl c.hostname)
      ∙ ap (λ d. ([], d)) (start_synchronisation-begun disk c' idle-send_greetings)
  read-requests false = refl

  -- A connected, idle client that has asked for nothing else yet greets a server that is not
  -- disabled, behind a reliable database with both tables, where the client's user is known and
  -- without a quote and both its names are plain and in ASCII. The server reads the whole
  -- greeting and registers the client; and what it writes back makes the client begin a
  -- synchronisation that is to notify no one, exactly if a row of the client's host has to
  -- synchronise, the row that the registration adds included, and otherwise leaves the client as
  -- it is.
  pub greeting_round :
      (read_client e k socket now (sent w (send_greetings c).actions) s
        ≡ returns ([], registered e s socket now c))
      × (answer : Text) × (written w socket (registered e s socket now c).actions
          ≡ written w socket s.actions ++ answer)
      × (read_from_server k disk answer (send_greetings c)
          ≡ ([], if is_due e s c then begun disk (send_greetings c) else send_greetings c))
  greeting_round = (
    read-greeting,
    written w socket (requests socket c.hostname (is_due e s c)),
    written-registered,
    read-requests (is_due e s c),
  )
