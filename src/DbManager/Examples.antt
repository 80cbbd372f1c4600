-- ===== src/DbManager/Examples.antt =====
-- The theorems on class DbManager at concrete tables.
use easysync.Prelude.{pos, ◌≡◌, refl, true, false, [], ◌∷◌, All-of-any, ◌==◌}
use easysync.Text.{codes}
use easysync.Text.Format.{arg}
use easysync.Database.Literals.{literals}
use easysync.Database.Reference.{reference-IsReliable}
use easysync.DbManager.{
  is_user_valid, add_user, create_tables, clients_to_sync, set_notify_all_except, is_sync_needed,
  add_hostname, is_connected,
}
use easysync.DbManager.Quote.{sql_quote}
use easysync.DbManager.Queries.{registered_query}
use easysync.DbManager.Execution.{tables_of}
use easysync.DbManager.Users.{is_user_valid_lem}
use easysync.DbManager.Enrol.{is_user_valid-add_user}
use easysync.DbManager.Selects.{contains}
use easysync.DbManager.Sync.{clients_to_sync_lem, is_sync_needed-set_notify_all_except}
use easysync.DbManager.Register.{Leaves, add_hostname_lem, with_socket, hosts_with}
use easysync.DbManager.Setup.{create_tables_lem, prepared}
use easysync.Fixtures.{alice, bob, two_tables, engine, manager, due_manager}

-- A `%1` in the user name makes the second `arg` fill the wrong place.
registered_query_percent :
    literals (registered_query (codes "%1") (codes "laptop")) ≡ codes "laptop" ∷ codes "%2" ∷ []
unfolding registered_query arg literals
registered_query_percent = refl

is_user_valid_lem_example : (is_user_valid engine manager alice).0 ≡ true
is_user_valid_lem_example =
    is_user_valid_lem engine (reference-IsReliable false two_tables) manager alice (refl, refl)

is_user_valid-add_user_example :
    (is_user_valid engine (add_user engine manager (codes "o'brien")).1 (codes "o'brien")).0 ≡ false
is_user_valid-add_user_example =
    is_user_valid-add_user engine (reference-IsReliable false two_tables) manager (codes "o'brien")
      (refl, refl)

-- Bob has no host, but alice's laptop is due: a notification of bob's reaches it.
clients_to_sync_lem_example : contains (pos 1) (clients_to_sync engine due_manager bob []).0 ≡ true
unfolding sql_quote
clients_to_sync_lem_example =
    clients_to_sync_lem engine (reference-IsReliable false two_tables) due_manager bob [] (pos 1)
      (refl, refl, refl)

is_sync_needed-set_notify_all_except_example :
    (is_sync_needed engine
      (set_notify_all_except engine manager alice (codes "desktop"))
      (codes "laptop")).0
    ≡ true
unfolding sql_quote
is_sync_needed-set_notify_all_except_example =
    is_sync_needed-set_notify_all_except engine (reference-IsReliable false two_tables) manager
      alice (codes "desktop") (codes "laptop") (refl, refl, refl)

add_hostname_lem_example :
    Leaves engine
      (add_hostname engine manager bob (codes "phone") (pos 2))
      two_tables
      (with_socket (pos 2) (codes "phone") (hosts_with bob (codes "phone") two_tables))
add_hostname_lem_example =
    add_hostname_lem engine (reference-IsReliable false two_tables) manager bob (codes "phone")
      (pos 2) (refl, refl, refl) refl refl (All-of-any (λ c. c == 37) bob refl)

-- The driver does not report sizes, so the hosts are gone.
create_tables_lem_example :
    ((create_tables engine manager).0 ≡ true)
    × (is_connected engine (create_tables engine manager).1 ≡ true)
    × (tables_of engine (create_tables engine manager).1 ≡ prepared false two_tables)
create_tables_lem_example =
    create_tables_lem engine (reference-IsReliable false two_tables) manager refl
