-- ===== src/FileWatcher/System.antt =====
-- What `QFileInfo`, `QDir` and `QString::toLower` say of a path: the parameter of the models of
-- client/qt. A file system stands for the disk at one moment.
use easysync.Prelude.{ℕ, Bool, true, false, ◌&&◌, ◌||◌, List, [], ◌∷◌, ◌==◌, if◌then◌else◌}
use easysync.Text.{Text, text_eq}
use easysync.Text.Format.{chop}

-- `ownerId`, `groupId`, `permissions`, `lastModified`.
pub record Stat : Type 0 where
  pub owner_id : ℕ
  pub group_id : ℕ
  pub permissions : ℕ
  pub last_modified : ℕ

pub record FileSystem : Type 0 where
  pub exists : Text → Bool
  pub is_dir : Text → Bool
  pub absolute_file_path : Text → Text
  -- The folder of a path.
  pub absolute_path : Text → Text
  pub stat : Text → Stat
  -- `absoluteDir().entryList(QDir::AllEntries)`
  pub entries : Text → List Text
  pub to_lower : Text → Text

abbrev pub stat_eq : Stat → Stat → Bool
stat_eq a b =
    a.owner_id == b.owner_id
    && a.group_id == b.group_id
    && a.permissions == b.permissions
    && a.last_modified == b.last_modified

-- `==` of two lists of texts.
abbrev pub texts_eq : List Text → List Text → Bool
texts_eq [] [] = true
texts_eq [] (y ∷ ys) = false
texts_eq (x ∷ xs) [] = false
texts_eq (x ∷ xs) (y ∷ ys) = text_eq x y && texts_eq xs ys

-- `endsWith` of one character.
abbrev pub ends_with : ℕ → Text → Bool
ends_with c [] = false
ends_with c (d ∷ []) = d == c
ends_with c (d ∷ e ∷ s) = ends_with c (e ∷ s)

-- A trailing slash or backslash is taken off.
abbrev pub normal_path : Text → Text
normal_path path = if ends_with b'/' path || ends_with 92 path then chop path 1 else path
