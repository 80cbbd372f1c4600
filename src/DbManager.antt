-- ===== src/DbManager.antt =====
-- server/dbmanager.cpp and server/dbmanager.h: class DbManager. Each method takes the manager and
-- returns it as the method leaves it, with the method's result. The file system, the settings file
-- and SQLite are parameters; log lines are left out.
pub mod Quote
pub mod Queries
pub mod Paths
pub mod Execution
pub mod Users
pub mod Enrol
pub mod Selects
pub mod Sync
pub mod Asked
pub mod Effects
pub mod Register
pub mod Setup
pub mod Voiding
pub mod Examples
use easysync.Prelude.{
  ℕ, ℤ, Bool, true, false, not, ◌&&◌, ◌||◌, Option, none, some, List, [], ◌∷◌, ◌++◌, map, filter,
  length, ltb, if◌then◌else◌, pos, minus_one,
}
use easysync.Text.{Text, text_eq, codes}
use easysync.Database.Literals.{literal}
use easysync.Database.Schema.{Row, table_row, username_row, must_sync_row, client_row, exists}
use easysync.Database.Statements.{
  Statement, select_users_table, create_users, drop_hosts, create_hosts, void_socket, mark_others,
  insert_user, select_username, select_clients, clear_sync, select_must_sync, select_registered,
  insert_host, assign_socket,
}
use easysync.Database.Engine.{Engine, Reply}
use Quote.{sql_quote}
use Queries.{valid_query, notify_query, clients_query, needed_query, registered_query}

-- `query.next()` on the first row, and its `value(0).toString()` against a text.
abbrev pub first_is : Text → List Row → Bool
first_is username [] = false
first_is username (username_row n ∷ rows) = text_eq n username
first_is username (_ ∷ rows) = text_eq [] username

abbrev pub has_row : List Row → Bool
has_row [] = false
has_row (row ∷ rows) = true

-- `value(0).toInt()` of a row of clientsToSync.
abbrev pub socket_of : Row → ℤ
socket_of (client_row socket_id hostname) = socket_id
socket_of _ = pos 0

-- `query.size()`: -1 where the driver does not report sizes, which is below 1 too.
abbrev pub is_size_below_one : Bool → List Row → Bool
is_size_below_one true rows = ltb (length rows) 1
is_size_below_one false rows = true

module _ (e : Engine) where
  open e use {Db, exec, open_path, query_size}

  -- `db` is the open connection, if there is one.
  pub record DbManager : Type 0 where
    pub db_path : Text
    pub db : Option Db

  -- DbManager::DbManager
  abbrev pub init : DbManager
  init = record { db_path = []; db = none }

  -- DbManager::isConnected
  abbrev pub is_connected : DbManager → Bool
  is_connected m = exists m.db

  -- DbManager::disconnect
  pub disconnect : DbManager → DbManager
  disconnect m = record m { db = none }

  -- DbManager::~DbManager
  pub delete_manager : DbManager → DbManager
  unfolding disconnect
  delete_manager m = disconnect m

  abbrev pub opened : DbManager → Option Db → Bool × DbManager
  opened m none = (false, disconnect m)
  opened m (some d) = (true, record m { db = some d })

  -- DbManager::connect
  pub connect : DbManager → Bool × DbManager
  unfolding disconnect
  connect m = opened m (open_path m.db_path)

  abbrev pub holding : DbManager → Db → DbManager
  holding m d = record m { db = some d }

  -- `if (!db.isOpen()) return;` in front of one statement whose result is not looked at.
  abbrev pub execute : DbManager → Statement → DbManager
  execute m s = elim m.db [ none ↦ m | some d ↦ holding m (exec d s).db ]

  -- The statements of createTables behind its test.
  abbrev pub make_tables : Db → Db
  make_tables d =
      let with_users = (exec d create_users).db in
      let without_hosts = (exec with_users drop_hosts).db in (exec without_hosts create_hosts).db

  abbrev pub make_if_missing : Db → List Row → Db
  make_if_missing d rows = if is_size_below_one query_size rows then make_tables d else d

  abbrev pub create_in : DbManager → Reply Db → Bool × DbManager
  create_in m r =
      if r.ok
      then (true, holding m (make_if_missing r.db r.rows))
      else (false, disconnect (holding m r.db))

  -- DbManager::createTables
  pub create_tables : DbManager → Bool × DbManager
  unfolding disconnect
  create_tables m = elim m.db [
    | none ↦ (false, m)
    | some d ↦ create_in m (exec d select_users_table)
  ]

  -- DbManager::voidConnection
  pub void_connection : DbManager → Text → DbManager
  void_connection m hostname = execute m (void_socket hostname)

  -- DbManager::setNotifyAllExcept
  pub set_notify_all_except : DbManager → Text → Text → DbManager
  set_notify_all_except m username hostname =
      execute m (mark_others hostname (literal (notify_query (sql_quote username)) 0))

  -- DbManager::isUserValid
  pub is_user_valid : DbManager → Text → Bool × DbManager
  is_user_valid m username = elim m.db [
    | none ↦ (false, m)
    | some d ↦
        let r = exec d (select_username (literal (valid_query (sql_quote username)) 0)) in
        (r.ok && first_is username r.rows, holding m r.db)
  ]

  abbrev pub insert_unless : Bool × DbManager → Text → DbManager
  insert_unless (true, m) username = m
  insert_unless (false, m) username = execute m (insert_user username)

  -- DbManager::addUser
  pub add_user : DbManager → Text → Bool × DbManager
  unfolding is_user_valid
  add_user m username = elim m.db [
    | none ↦ (false, m)
    | some d ↦ (true, insert_unless (is_user_valid m username) username)
  ]

  -- DbManager::clientsToSync; on a closed database the caller's list stays as it is.
  pub clients_to_sync : DbManager → Text → List ℤ → List ℤ × DbManager
  clients_to_sync m username sockets = elim m.db [
    | none ↦ (sockets, m)
    | some d ↦
        let r = exec d (select_clients (literal (clients_query (sql_quote username)) 2)) in
        (map socket_of r.rows, holding m r.db)
  ]

  -- DbManager::syncIsDone
  pub sync_is_done : DbManager → Text → DbManager
  sync_is_done m hostname = execute m (clear_sync hostname)

  -- DbManager::isSyncNeeded: the query is executed twice, and the second rows are read.
  pub is_sync_needed : DbManager → Text → Bool × DbManager
  is_sync_needed m hostname = elim m.db [
    | none ↦ (false, m)
    | some d ↦
        let s = select_must_sync (literal (needed_query (sql_quote hostname)) 0) in
        let r = exec (exec d s).db s in (has_row r.rows, holding m r.db)
  ]

  abbrev pub assign : DbManager → Db → ℤ → Text → Bool × DbManager
  assign m d socket_id hostname = (true, holding m (exec d (assign_socket socket_id hostname)).db)

  abbrev pub insert_then_assign : DbManager → Db → Text → Text → ℤ → Bool × DbManager
  insert_then_assign m d username hostname socket_id =
      let r = exec d (insert_host username hostname) in
      if r.ok then assign m r.db socket_id hostname else (false, holding m r.db)

  -- The second execution of the query of addHostname, and what follows it.
  abbrev pub add_in : DbManager → Reply Db → Text → Text → ℤ → Bool × DbManager
  add_in m r username hostname socket_id =
      if r.ok
      then (if has_row r.rows
          then assign m r.db socket_id hostname
          else insert_then_assign m r.db username hostname socket_id)
      else (false, holding m r.db)

  -- DbManager::addHostname
  pub add_hostname : DbManager → Text → Text → ℤ → Bool × DbManager
  add_hostname m username hostname socket_id = elim m.db [
    | none ↦ (false, m)
    | some d ↦
        let text = registered_query (sql_quote username) (sql_quote hostname) in
        let s = select_registered (literal text 0) (literal text 1) in
        add_in m (exec (exec d s).db s) username hostname socket_id
  ]
