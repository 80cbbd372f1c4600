-- ===== src/Marks/Delivery.antt =====
-- A client that greets the server after whatever has happened to it: the request that it gets is told by
-- the events since (server/easysyncserver.cpp, client/client.cpp).
use easysync.Prelude.{
  ℕ, ◌≡◌, Bool, true, false, List, [], ◌++◌, ap, ◌∙◌, All, any, arith, if◌then◌else◌,
}
use easysync.Text.{Text}
use easysync.Text.Format.{NoPercent}
use easysync.Text.Scan.{Unicode}
use easysync.Database.Schema.{User, has_name, user_rows, host_rows}
use easysync.Database.Engine.{Engine, IsReliable}
use easysync.Database.Statements.{is_host}
use easysync.DbManager.{is_sync_needed}
use easysync.DbManager.Execution.{tables_of}
use easysync.DbManager.Quote.{has_quote, sql_quote-eq_self}
use easysync.DbManager.Sync.{HasTables}
use easysync.Server.{Server, read_client}
use easysync.Server.Lists.{returns}
use easysync.Server.Registration.{IsPlainGreeting}
use easysync.Client.State.{Client}
use easysync.Client.Watcher.{Folders}
use easysync.Client.{send_greetings, read_from_server}
use easysync.Text.Wire.{Wire, IsAscii, KeepsAscii}
use easysync.Exchange.{sent, written, begun}
use easysync.Exchange.Greeting.{registered, is_due, greeting_round}
use easysync.Marks.{Event, marks, is_of}
use easysync.Marks.Handlers.{Marked}
use easysync.Marks.History.{History-Shows}
use easysync.Marks.Registry.{Member, Agrees}
use easysync.Marks.Traced.{Traced, Traced-History}

-- A listed host needs no new row, so what its registration finds is its mark.
Marked-is_due :
    (e : Engine) (users : List User) (owner : ℕ) (b : Bool) (s : Server e) (c : Client)
    → has_quote c.hostname ≡ false
    → Marked e users owner c.hostname b s
    → is_due e s c ≡ b
Marked-is_due e users owner b s c plain m =
    let here : any (is_host c.hostname) (host_rows (tables_of e s.db_manager)) ≡ true =
      ground (arith, m.listed) in
    rw (sql_quote-eq_self c.hostname plain, here) m.marked

-- Behind a reliable database with both tables, where no user's name has a `%`, the plain host name
-- of a client is in the table, of one owner only, and a server starts with lists of sockets and
-- host names that agree with who has registered from which socket. After any history of the server,
-- without reading outside of its lists, in which a registered client that leaves has the same
-- entries under its socket as under its host name, and that leaves the server enabled, the client,
-- connected again, idle and having asked for nothing else yet, greets it as a user whom the table
-- knows, its names plain, in ASCII and without a quote. The server reads the whole greeting, and
-- its answer makes the client begin a synchronisation that is to notify no one exactly if the
-- events of the history mark the host: if another host of the owner has notified since the host
-- last reported, from a socket from which it had registered, that it was done, or it had to
-- synchronise from the start and has not reported since. Otherwise the answer leaves the client as
-- it is.
pub greeting_round-Traced :
    (e : Engine)
    → IsReliable e
    → (k : Unicode) (start s : Server e) (first ms : List Member) (events : List Event) (owner : ℕ)
      (c : Client)
    → (socket now : ℕ) (disk : Folders) → HasTables e start.db_manager
    → has_quote c.hostname ≡ false
    → All (λ r. NoPercent r.username) (user_rows (tables_of e start.db_manager))
    → is_of owner c.hostname (host_rows (tables_of e start.db_manager)) ≡ true
    → any (has_name c.username) (user_rows (tables_of e start.db_manager)) ≡ true
    → has_quote c.username ≡ false
    → IsPlainGreeting k c.username c.hostname
    → Agrees e first start
    → Traced e k start first ms events s
    → s.disabled ≡ false
    → c.socket_ready ≡ true
    → c.actions ≡ []
    → c.sync_in_progress ≡ false
    → (w : Wire) → KeepsAscii w
    → IsAscii c.username
    → IsAscii c.hostname
    → let users = user_rows (tables_of e start.db_manager) in
      let before = (is_sync_needed e start.db_manager c.hostname).0 in
      (s' : Server e) × (read_client e k socket now (sent w (send_greetings c).actions) s
        ≡ returns ([], s'))
      × (answer : Text) × (written w socket s'.actions ≡ written w socket s.actions ++ answer)
      × (read_from_server k disk answer (send_greetings c) ≡ (
        [],
        if marks users owner c.hostname events before
            then begun disk (send_greetings c)
            else send_greetings c,
      ))
greeting_round-Traced e rel k start s first ms events owner c socket now disk tabs plain percent
      listed known quoteless names a t open_ ready quiet idle w safe user_ascii host_ascii =
    let users = user_rows (tables_of e start.db_manager) in
    let (h, agrees) = Traced-History e k a t in
    let m = History-Shows e rel k start s events owner c.hostname tabs plain percent listed h in
    let b = marks users owner c.hostname events (is_sync_needed e start.db_manager c.hostname).0 in
    let (reads, answer, wrote, asks) =
      greeting_round e rel k s socket now disk c open_ m.tabs
        (ap (any (has_name c.username)) m.known ∙ known) quoteless names ready quiet idle w safe
        user_ascii host_ascii in
    let due : is_due e s c ≡ b = Marked-is_due e users owner b s c plain m in
    (
      registered e s socket now c,
      reads,
      answer,
      wrote,
      asks ∙ ap (λ b. ([], if b then begun disk (send_greetings c) else send_greetings c)) due,
    )
