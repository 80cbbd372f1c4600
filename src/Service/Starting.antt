-- ===== src/Service/Starting.antt =====
-- What start of server/easysyncservice.cpp leaves, in its branch for `--adduser` and in its branch
-- for a server.
use easysync.Prelude.{
  ◌^◌, ◌<◌, ◌≡◌, refl, Bool, true, false, not, ◌&&◌, Option, none, some, List, [], ◌∷◌, ap, ◌∙◌,
  arith, if◌then◌else◌, Bool-cases, inl, inr, subst, sym,
}
use mathlib.Core.Option.{some-injective, none-ne-some}
use easysync.Text.{Text, is_empty, codes}
use easysync.Database.Schema.{Tables, user_rows, exists}
use easysync.Database.Engine.{Engine, IsReliable}
use easysync.DbManager.{
  DbManager, init, is_connected, connect, create_tables, add_user, is_user_valid,
}
use easysync.DbManager.Paths.{init_db_path, lacks_path, init_db_path-logged}
use easysync.DbManager.Quote.{has_quote}
use easysync.DbManager.Execution.{tables_of}
use easysync.DbManager.Users.{HasUsers}
use easysync.DbManager.Enrol.{users_with, add_user_lem, is_user_valid-add_user}
use easysync.DbManager.Setup.{prepared, create_tables_lem, is_connected-connect, connect-opened}
use easysync.Service.Arguments.{Options, process_arguments}
use easysync.Service.{
  Host, Instance, Service, new_service, new_server, enrol, serve, start, stop, stop_at, port_of,
}

users-prepared : (reports : Bool) (t : Tables) → exists (prepared reports t).users ≡ true
users-prepared reports t = ground arith

-- The arguments of the command line, read from the start.
abbrev pub options : List Text → Options
options args = process_arguments args (record { username = []; config_path = [] })

module _ (e : Engine) (host : Host) where
  -- The database that a configuration file leads to.
  abbrev pub db_path_of : Text → Text
  db_path_of config_path = (init_db_path host.environment config_path).db_path

  port_of_bounds : (config_path : Text) → port_of e host config_path < 2 ^ 16
  unfolding port_of
  port_of_bounds config_path = ground arith

  left_by_stop :
      (x : Option (Instance e)) (s : Service e) → s.server ≡ x → (stop_at e x s).0.server ≡ none
  left_by_stop none s p = p
  left_by_stop (some i) s p = refl

  stop-server : (s : Service e) → (stop e s).0.server ≡ none
  unfolding stop
  stop-server s = left_by_stop s.server s refl

  module _ (args : List Text) where
    -- The port can be bound and the database opened.
    abbrev pub is_usable : Bool
    is_usable =
        host.can_listen (port_of e host (options args).config_path)
        && exists (e.open_path (db_path_of (options args).config_path))

    -- The server on the configured port and database.
    abbrev pub started_server : Instance e
    started_server =
        new_server e host (port_of e host (options args).config_path) (options args).config_path

    -- If no user is named, start leaves a server, that of the configured port and database,
    -- exactly if the port can be bound and the database opened, and quits exactly if not.
    pub start-serve :
        is_empty (options args).username ≡ true
        → ((start e host args (new_service e)).server
            ≡ (if is_usable then some started_server else none))
          × ((start e host args (new_service e)).quits ≡ not is_usable)
    unfolding start serve stop
    start-serve h =
        let config_path = (options args).config_path in
        let listens = host.can_listen (port_of e host config_path) in
        let m = (connect e (record (init e) { db_path = db_path_of config_path })).1 in
        let (result, connected, gone) =
          is_connected-connect e (record (init e) { db_path = db_path_of config_path }) in
        let opens : is_connected e m ≡ exists (e.open_path (db_path_of config_path)) =
          connected ∙ result in
        rw h (elim (Bool-cases listens) [
          | inl p ↦ elim (Bool-cases (is_connected e m)) [
            | inl q ↦ rw (p, ← opens, q) (refl, refl)
            | inr q ↦ rw (p, ← opens, q) (refl, refl)
          ]
          | inr p ↦ rw p (refl, refl)
        ])

    start-enrol_server :
        is_empty (options args).username ≡ false → (start e host args (new_service e)).server ≡ none
    unfolding start enrol
    start-enrol_server h = rw h (stop-server _)

    -- A server that runs as start leaves one.
    abbrev pub Runs : Instance e → Type 0
    Runs i = (i.listening ≡ true) × (is_connected e i.state.db_manager ≡ true) × (i.port < 2 ^ 16)

    new_server-Runs : is_usable ≡ true → Runs started_server
    unfolding new_server
    new_server-Runs u =
        let config_path = (options args).config_path in
        let (result, connected, gone) =
          is_connected-connect e (record (init e) { db_path = db_path_of config_path }) in
        (ground arith, connected ∙ result ∙ ground arith, port_of_bounds config_path)

    -- Whatever the command line, a server that start leaves listens, is connected to its
    -- database, and has a port below 65536.
    pub start-Runs : (i : Instance e) → (start e host args (new_service e)).server ≡ some i → Runs i
    start-Runs i h = elim (Bool-cases (is_empty (options args).username)) [
      | inl named ↦ elim (Bool-cases is_usable) [
        | inl u ↦
            let left : some started_server ≡ some i = sym ((start-serve named).0 ∙ rw u refl) ∙ h in
            subst Runs (some-injective started_server i left) (new_server-Runs u)
        | inr u ↦
            let left : none ≡ some i = sym ((start-serve named).0 ∙ rw u refl) ∙ h in
            absurd (none-ne-some i left)
      ]
      | inr named ↦ absurd (none-ne-some _ (sym (start-enrol_server named) ∙ h))
    ]

    module _ (r : IsReliable e) (d : e.Db) where
      -- If a user is named on the command line and the database of the configuration can be
      -- opened, then with a reliable engine start leaves no server and quits, and logs
      -- nothing but the missing dbPath, where a configuration file is given that has none.
      -- The database that it leaves is the prepared one, where the hosts are as createTables
      -- leaves them and the user stands at the end of the table unless the name was listed
      -- and holds no quote; and isUserValid accepts the name exactly if it holds no quote.
      pub start-enrol :
          is_empty (options args).username ≡ false
          → e.open_path (db_path_of (options args).config_path) ≡ some d
          → let u = (options args).username in
            let t = prepared e.query_size (e.tables d) in
            (m : DbManager e) × ((start e host args (new_service e)).stored ≡ some m)
            × ((start e host args (new_service e)).server ≡ none)
            × ((start e host args (new_service e)).quits ≡ true)
            × ((start e host args (new_service e)).logged ≡ (
                if lacks_path host.environment (options args).config_path
                then codes "Failed to read dbPath from config file" ∷ []
                else []))
            × (user_rows (tables_of e m) ≡ users_with u t)
            × ((tables_of e m).hosts ≡ t.hosts)
            × ((is_user_valid e m u).0 ≡ not (has_quote u))
      unfolding start enrol stop
      start-enrol named opened =
          let o = options args in
          let fresh = record (init e) { db_path = db_path_of o.config_path } in
          let m = (connect e fresh).1 in
          let open_ : connect e fresh ≡ (true, record fresh { db = some d }) =
            connect-opened e fresh d opened in
          let c : is_connected e m ≡ true = ap (λ v. is_connected e v.1) open_ in
          let (created, stays, tables) = create_tables_lem e r m c in
          let m' = (create_tables e m).1 in
          let same = tables ∙ ap (λ v. prepared e.query_size (tables_of e v.1)) open_ in
          let usable : HasUsers e m' = (
            stays,
            ap (λ t. exists t.users) tables ∙ users-prepared e.query_size (tables_of e m),
          ) in
          let (added, still, listed, apart) = add_user_lem e r m' o.username usable in
          rw (named, created, added)
            (
              (add_user e m' o.username).1,
              refl,
              refl,
              refl,
              init_db_path-logged host.environment o.config_path,
              listed ∙ ap (users_with o.username) same,
              apart ∙ ap (λ t. t.hosts) same,
              is_user_valid-add_user e r m' o.username usable,
            )
