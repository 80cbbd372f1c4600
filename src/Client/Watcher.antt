-- ===== src/Client/Watcher.antt =====
-- The folders below the synchronised one, and the watcher over them (client/client.cpp, subFolders,
-- installWatcher, stopWatcher). The file system is data: the folders in a folder with their names and
-- whether they are hidden, in the order of `entryList`. A link to a folder stands as the folder that it
-- leads to; a tree of this kind is finite, so links lead to no folder above them.
use easysync.Prelude.{Bool, true, false, not, List, [], ◌∷◌, ◌++◌, any, filter, if◌then◌else◌}
use easysync.Text.{Text, text_eq}

pub data Folders : Type 0 where
  nothing : Folders
  folder : (name : Text) (hidden : Bool) (inside others : Folders) → Folders

-- `folder + QDir::separator() + subdir`, where the separator is a slash.
abbrev pub full_path : Text → Text → Text
full_path parent subdir = parent ++ b'/' ∷ subdir

-- The loop of subFolders over the entries of a folder: `entryList` without `QDir::Hidden` leaves out the
-- hidden ones.
abbrev pub sub_folders_each : Text → Folders → List Text
sub_folders_each parent nothing = []
sub_folders_each parent (folder name true inside others) = sub_folders_each parent others
sub_folders_each parent (folder name false inside others) =
    let path = full_path parent name in
    (path ∷ sub_folders_each path inside) ++ sub_folders_each parent others

-- Client::subFolders
unfoldable pub sub_folders : Text → Folders → List Text
sub_folders parent inside = parent ∷ sub_folders_each parent inside

-- The path is in the list.
abbrev pub is_in : Text → List Text → Bool
is_in path = any (text_eq path)

-- `addPaths`: a path that is watched already is not added again.
abbrev pub add_path : List Text → Text → List Text
add_path watched path = if is_in path watched then watched else watched ++ path ∷ []

abbrev pub add_paths : List Text → List Text → List Text
add_paths watched [] = watched
add_paths watched (path ∷ paths) = add_paths (add_path watched path) paths

-- `removePaths`
abbrev pub remove_paths : List Text → List Text → List Text
remove_paths watched [] = watched
remove_paths watched (path ∷ paths) =
    remove_paths (filter (λ p. not (text_eq p path)) watched) paths
