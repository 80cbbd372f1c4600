-- ===== src/Service/Examples.antt =====
-- The theorems on the service at concrete command lines.
use easysync.Prelude.{◌≡◌, refl, true, false, not, ◌==◌, none, some, List, [], ◌∷◌, if◌then◌else◌}
use easysync.Text.{Text, codes}
use easysync.Database.Schema.{user_rows}
use easysync.Database.Reference.{reference-IsReliable}
use easysync.DbManager.{DbManager, is_user_valid}
use easysync.DbManager.Execution.{tables_of}
use easysync.DbManager.Enrol.{users_with}
use easysync.DbManager.Paths.{Environment}
use easysync.DbManager.Setup.{prepared}
use easysync.Service.{Host, new_service, start, port_of}
use easysync.Service.Arguments.{
  adduser, config, word, words, process_arguments, process_arguments-words,
}
use easysync.Service.Starting.{
  is_usable, started_server, Runs, start-Runs, start-serve, start-enrol,
}
use easysync.Fixtures.{bob, two_tables, engine}

abbrev environment : Environment
environment = record {
  home_path = codes "/home/bob";
  separator = codes "/";
  setting = λ file key. codes "1985";
  absolute_file_path = λ path. path;
  absolute_path = λ path. codes "/etc";
}

-- A host with one free port.
abbrev host : Host
host = record {
  environment = environment;
  variant_to_uint = λ value. 1985;
  number = λ n. codes "1985";
  can_listen = λ port. port == 1985;
}

process_arguments-words_example :
    process_arguments
      (words (word (codes "-e") ∷ adduser bob ∷ config (codes "a.ini") ∷ []))
      (record { username = []; config_path = [] })
    ≡ record { username = bob; config_path = codes "a.ini" }
process_arguments-words_example =
    process_arguments-words (word (codes "-e") ∷ adduser bob ∷ config (codes "a.ini") ∷ [])
      (record { username = []; config_path = [] }) (refl, (tt, (tt, tt)))

abbrev enrolling : List Text
enrolling = codes "--adduser" ∷ codes "carol" ∷ []

abbrev serving : List Text
serving = codes "--config" ∷ codes "a.ini" ∷ []

start-serve_example :
    ((start engine host serving (new_service engine)).server
      ≡ (if is_usable engine host serving then some (started_server engine host serving) else none))
    × ((start engine host serving (new_service engine)).quits ≡ not (is_usable engine host serving))
unfolding process_arguments
start-serve_example = start-serve engine host serving refl

start-Runs_example : Runs engine host serving (started_server engine host serving)
unfolding process_arguments port_of
start-Runs_example =
    start-Runs engine host serving (started_server engine host serving)
      (start-serve engine host serving refl).0

start-enrol_example :
    (m : DbManager engine) × ((start engine host enrolling (new_service engine)).stored ≡ some m)
    × ((start engine host enrolling (new_service engine)).server ≡ none)
    × ((start engine host enrolling (new_service engine)).quits ≡ true)
    × ((start engine host enrolling (new_service engine)).logged ≡ [])
    × (user_rows (tables_of engine m) ≡ users_with (codes "carol") (prepared false two_tables))
    × ((tables_of engine m).hosts ≡ (prepared false two_tables).hosts)
    × ((is_user_valid engine m (codes "carol")).0 ≡ true)
unfolding process_arguments
start-enrol_example =
    start-enrol engine host enrolling (reference-IsReliable false two_tables) two_tables refl refl
