-- ===== src/Marks/History.antt =====
-- The histories of a server (server/easysyncserver.cpp): what its sockets, its timer and the service do to
-- it in any order, and the mark of one host behind them.
use easysync.Prelude.{
  ℕ, ◌≡◌, refl, Bool, true, false, Option, none, some, List, [], ◌∷◌, ◌++◌, ap, ◌∙◌, sym, subst,
  All, ℤ, pos, negsuc, ◌==◌, length, if_intro,
}
use easysync.Text.{Text}
use easysync.Text.Format.{NoPercent}
use easysync.Text.Scan.{Unicode}
use easysync.Database.Schema.{User, user_rows, host_rows}
use easysync.Database.Engine.{Engine, IsReliable}
use easysync.DbManager.{is_sync_needed}
use easysync.DbManager.Execution.{tables_of}
use easysync.DbManager.Quote.{has_quote, sql_quote-eq_self}
use easysync.DbManager.Sync.{HasTables, is_sync_needed_lem}
use easysync.Server.Changes.{Ensures, Ensures-bind, Ensures-then}
use easysync.Server.Lists.{returns, at, index_of}
use easysync.Server.{
  Server, read_client, client_disconnected, handle_new_connection, check_clients_connection, pause,
  resume, stop, forget, accept_each, disconnect_each, silent,
}
use easysync.Marks.{Event, mark, marks, is_of, due}
use easysync.Marks.Events.{read_events}
use easysync.Marks.Handlers.{Marked}
use easysync.Marks.Lines.{read_client-After}
use easysync.Marks.Methods.{void_connection-Shows}

module _ (e : Engine) (k : Unicode) where
  -- What happens to a server, with the events that it tells. Connections come in by `pending`.
  pub data Step : Server e → List Event → Server e → Type 0 where
    reads :
        {s s' : Server e} (socket now : ℕ) (buffer rest : Text)
        → read_client e k socket now buffer s ≡ returns (rest, s')
        → Step s (read_events e k (user_rows (tables_of e s.db_manager)) socket buffer s) s'
    leaves :
        {s s' : Server e} (client : Option ℕ)
        → client_disconnected e client s ≡ returns s'
        → Step s [] s'
    checks :
        {s s' : Server e} (now : ℕ) → check_clients_connection e now s ≡ returns s' → Step s [] s'
    connects :
        {s : Server e} (pending : List ℕ)
        → Step s [] (handle_new_connection e (record s { pending = pending }))
    pauses : {s : Server e} → Step s [] (pause e s)
    resumes : {s : Server e} → Step s [] (resume e s)
    stops : {s : Server e} → Step s [] (stop e s)

  pub data History (start : Server e) : List Event → Server e → Type 0 where
    begin : History start [] start
    then_step :
        {events more : List Event} {s s' : Server e}
        → History start events s
        → Step s more s'
        → History start (events ++ more) s'

marks-append :
    (users : List User) (owner : ℕ) (host : Text) (xs ys : List Event) (b : Bool)
    → marks users owner host (xs ++ ys) b ≡ marks users owner host ys (marks users owner host xs b)
marks-append users owner host [] ys b = refl
marks-append users owner host (x ∷ xs) ys b =
    marks-append users owner host xs ys (mark users owner host x b)

module _ (e : Engine) (rel : IsReliable e) (k : Unicode) (users : List User) (owner : ℕ)
    (host : Text) (plain : has_quote host ≡ false)
    (percent : All (λ r. NoPercent r.username) users) where
  abbrev Kept : Bool → Server e → Type 0
  Kept = Marked e users owner host

  forget-Marked :
      (b : Bool) (i : ℤ) (client : ℕ) (s : Server e)
      → Kept b s
      → Ensures (Kept b) (forget e i client s)
  forget-Marked b (negsuc i) client s m = m
  forget-Marked b (pos i) client s m = Ensures-bind (Kept b) (at s.peer_names (pos i)) _ λ hostname.
      Ensures-bind (Kept b) (at s.client_last_seen (pos i)) _
        λ last_seen. void_connection-Shows e rel users owner host plain b s.db_manager hostname m

  client_disconnected-Marked :
      (b : Bool) (client : Option ℕ) (s : Server e)
      → Kept b s
      → Ensures (Kept b) (client_disconnected e client s)
  unfolding client_disconnected
  client_disconnected-Marked b none s m = m
  client_disconnected-Marked b (some client) s m =
      Ensures-then (Kept b) (Kept b) (forget e (index_of s.client_connections client) client s) _
        (forget-Marked b (index_of s.client_connections client) client s m)
        λ s' m'. if_intro (Kept b) (length s'.client_connections == 0) _ s' (λ _. m') (λ _. m')

  disconnect_each-Marked :
      (b : Bool) (must : List ℕ) (s : Server e) → Kept b s → Kept b (disconnect_each e must s)
  disconnect_each-Marked b [] s m = m
  disconnect_each-Marked b (client ∷ must) s m = disconnect_each-Marked b must _ m

  accept_each-Marked :
      (b : Bool) (cs : List ℕ) (s : Server e) → Kept b s → Kept b (accept_each e cs s)
  accept_each-Marked b [] s m = m
  accept_each-Marked b (c ∷ cs) s m = accept_each-Marked b cs _ m

  check_clients_connection-Marked :
      (b : Bool) (now : ℕ) (s : Server e)
      → Kept b s
      → Ensures (Kept b) (check_clients_connection e now s)
  unfolding check_clients_connection
  check_clients_connection-Marked b now s m =
      Ensures-bind (Kept b) (silent e 0 now s.client_last_seen s.client_connections) _
        λ must. disconnect_each-Marked b must s m

  handle_new_connection-Marked :
      (b : Bool) (s : Server e) → Kept b s → Kept b (handle_new_connection e s)
  unfolding handle_new_connection
  handle_new_connection-Marked b s m =
      if_intro (Kept b) s.disabled s _ (λ _. m) (λ _. accept_each-Marked b s.pending s m)

  Step-Marked :
      {s s' : Server e} {events : List Event}
      → Step e k s events s'
      → (b : Bool) → Kept b s
      → Kept (marks users owner host events b) s'
  unfolding pause resume stop
  Step-Marked (reads {s = s} {s' = s'} socket now buffer rest p) b m =
      subst (λ us. Kept (marks users owner host (read_events e k us socket buffer s) b) s')
        (sym m.known)
        (subst
          (Ensures (λ (v : Text × Server e).
            Kept (marks users owner host (read_events e k users socket buffer s) b) v.1))
          p (read_client-After e rel users owner host plain percent k socket now b s m buffer))
  Step-Marked (leaves {s = s} client p) b m =
      subst (Ensures (Kept b)) p (client_disconnected-Marked b client s m)
  Step-Marked (checks {s = s} now p) b m =
      subst (Ensures (Kept b)) p (check_clients_connection-Marked b now s m)
  Step-Marked (connects {s = s} pending) b m =
      handle_new_connection-Marked b (record s { pending = pending }) m
  Step-Marked pauses b m = m
  Step-Marked resumes b m = m
  Step-Marked stops b m = m

  History-Marked :
      {start s : Server e} {events : List Event}
      → History e k start events s
      → (b : Bool) → Kept b start
      → Kept (marks users owner host events b) s
  History-Marked begin b m = m
  History-Marked (then_step {events = events} {more = more} {s' = s'} h x) b m =
      subst (λ b. Kept b s') (sym (marks-append users owner host events more b))
        (Step-Marked x (marks users owner host events b) (History-Marked h b m))

-- The mark that the database shows is the mark of the host's rows.
module _ (e : Engine) (rel : IsReliable e) (users : List User) (owner : ℕ) (host : Text)
    (plain : has_quote host ≡ false) (b : Bool) (s : Server e)
    (m : Marked e users owner host b s) where
  Marked-is_sync_needed : (is_sync_needed e s.db_manager host).0 ≡ b
  Marked-is_sync_needed =
      is_sync_needed_lem e rel s.db_manager host m.tabs
      ∙ ap (λ h. due h (host_rows (tables_of e s.db_manager))) (sql_quote-eq_self host plain)
      ∙ m.marked

-- A history from a server that shows the host as the owner's keeps the mark that its events tell.
pub History-Shows :
    (e : Engine)
    → IsReliable e
    → (k : Unicode) (start s : Server e) (events : List Event) (owner : ℕ) (host : Text)
    → HasTables e start.db_manager
    → has_quote host ≡ false
    → All (λ r. NoPercent r.username) (user_rows (tables_of e start.db_manager))
    → is_of owner host (host_rows (tables_of e start.db_manager)) ≡ true
    → History e k start events s
    → let users = user_rows (tables_of e start.db_manager) in
      Marked e users owner host
        (marks users owner host events (is_sync_needed e start.db_manager host).0)
        s
History-Shows e rel k start s events owner host tabs plain percent listed h =
    let users = user_rows (tables_of e start.db_manager) in
    let b = due host (host_rows (tables_of e start.db_manager)) in
    let before : Marked e users owner host b start = record {
      tabs = tabs;
      known = refl;
      listed = listed;
      marked = refl;
    } in
    subst (λ b. Marked e users owner host (marks users owner host events b) s)
      (sym (Marked-is_sync_needed e rel users owner host plain b start before))
      (History-Marked e rel k users owner host plain percent h b before)

-- The answer of isSyncNeeded after a history, told by the names at the places of the sockets.
pub is_sync_needed-History :
    (e : Engine)
    → IsReliable e
    → (k : Unicode) (start s : Server e) (events : List Event) (owner : ℕ) (host : Text)
    → HasTables e start.db_manager
    → has_quote host ≡ false
    → All (λ r. NoPercent r.username) (user_rows (tables_of e start.db_manager))
    → is_of owner host (host_rows (tables_of e start.db_manager)) ≡ true
    → History e k start events s
    → (is_sync_needed e s.db_manager host).0
      ≡ marks
          (user_rows (tables_of e start.db_manager))
          owner
          host
          events
          (is_sync_needed e start.db_manager host).0
is_sync_needed-History e rel k start s events owner host tabs plain percent listed h =
    Marked-is_sync_needed e rel (user_rows (tables_of e start.db_manager)) owner host plain _ s
      (History-Shows e rel k start s events owner host tabs plain percent listed h)
