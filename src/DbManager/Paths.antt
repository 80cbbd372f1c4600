-- ===== src/DbManager/Paths.antt =====
-- `initDbPath` of server/dbmanager.cpp: where the database lies.
use easysync.Prelude.{[], ◌∷◌, List, ◌&&◌, Bool, ◌≡◌, true, arith, not, ◌++◌, if◌then◌else◌}
use easysync.Text.{Text, codes, is_empty}

-- What `QDir`, `QFileInfo` and `QSettings` say.
pub record Environment : Type 0 where
  pub home_path : Text
  pub separator : Text
  -- The value of a key in an INI file, or the empty text.
  pub setting : Text → Text → Text
  pub absolute_file_path : Text → Text
  -- `QFileInfo(path).absolutePath()`: the folder of a file.
  pub absolute_path : Text → Text

-- The path of the database, the folder that `mkpath` makes, and what is given to `logMessage`.
pub record Location : Type 0 where
  pub db_path : Text
  pub settings_dir : Text
  pub logged : List Text

module _ (env : Environment) where
  open env use {home_path, separator, setting, absolute_file_path, absolute_path}

  pub default_location : Location
  default_location =
      let dir = home_path ++ separator ++ codes ".easysync" in
      record {
        db_path = dir ++ separator ++ codes "easysync.sqlite";
        settings_dir = dir;
        logged = [];
      }

  -- DbManager::initDbPath
  pub init_db_path : Text → Location
  unfolding default_location
  init_db_path config_path =
      let configured = setting (absolute_file_path config_path) (codes "dbPath") in
      if not (is_empty config_path)
      then (if is_empty configured
          then record default_location {
            logged = codes "Failed to read dbPath from config file" ∷ [];
          }
          else record {
            db_path = configured;
            settings_dir = absolute_path configured;
            logged = [];
          })
      else default_location

  -- A settings file is given that has no database path.
  abbrev pub lacks_path : Text → Bool
  lacks_path config_path =
      not (is_empty config_path)
      && is_empty (setting (absolute_file_path config_path) (codes "dbPath"))

  -- What is logged.
  pub init_db_path-logged :
      (config_path : Text)
      → (init_db_path config_path).logged ≡ (
          if lacks_path config_path
          then codes "Failed to read dbPath from config file" ∷ []
          else [])
  unfolding init_db_path default_location
  init_db_path-logged config_path = ground arith

  -- A settings file without a database path counts as none.
  pub init_db_path-unconfigured :
      (config_path : Text)
      → is_empty (setting (absolute_file_path config_path) (codes "dbPath")) ≡ true
      → (init_db_path config_path).db_path ≡ (init_db_path []).db_path
  unfolding init_db_path default_location
  init_db_path-unconfigured config_path h = ground arith
