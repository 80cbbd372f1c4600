-- ===== src/Client/Watching.antt =====
-- What the watcher of class Client watches, and when (client/client.cpp, subFolders, installWatcher,
-- stopWatcher and the slots that call them).
use easysync.Prelude.{
  ◌≡◌, ◌↔◌, ◌⊎◌, refl, Bool, true, false, not, ◌&&◌, ◌||◌, List, [], ◌∷◌, ap, ◌∙◌, arith,
  any-append, filter, Bool-cases, inl, inr,
}
use easysync.Text.{Text, text_eq, text_eq_iff, is_empty}
use easysync.Client.Watcher.{
  Folders, nothing, folder, full_path, sub_folders, sub_folders_each, is_in, add_path, add_paths,
  remove_paths,
}
use easysync.Client.State.{Client}
use easysync.Client.{
  install_watcher, stop_watcher, start_synchronisation, handle_sync_is_finished,
  handle_socket_connected, send_greetings,
}

-- The path leads to a folder at any depth below `parent`, through no hidden folder and to none.
pub data Below (path : Text) : Text → Folders → Type 0 where
  here :
      {parent name : Text} {inside others : Folders}
      → path ≡ full_path parent name
      → Below path parent (folder name false inside others)
  deeper :
      {parent name : Text} {inside others : Folders}
      → Below path (full_path parent name) inside
      → Below path parent (folder name false inside others)
  beside :
      {parent name : Text} {hidden : Bool} {inside others : Folders}
      → Below path parent others
      → Below path parent (folder name hidden inside others)

listed-of-Below :
    (path parent : Text) (disk : Folders)
    → Below path parent disk
    → is_in path (sub_folders_each parent disk) ≡ true
listed-of-Below path parent nothing b = elim b [ ]
listed-of-Below path parent (folder name false inside others) (here p) =
    ground (arith, text_eq_iff path (full_path parent name))
listed-of-Below path parent (folder name false inside others) (deeper b) =
    let all =
      any-append (text_eq path) (sub_folders_each (full_path parent name) inside)
        (sub_folders_each parent others) in
    ground (arith, all, listed-of-Below path (full_path parent name) inside b)
listed-of-Below path parent (folder name true inside others) (beside b) =
    listed-of-Below path parent others b
listed-of-Below path parent (folder name false inside others) (beside b) =
    let all =
      any-append (text_eq path) (sub_folders_each (full_path parent name) inside)
        (sub_folders_each parent others) in
    ground (arith, all, listed-of-Below path parent others b)

Below-of-listed :
    (path parent : Text) (disk : Folders)
    → is_in path (sub_folders_each parent disk) ≡ true
    → Below path parent disk
Below-of-listed path parent nothing h = cc
Below-of-listed path parent (folder name true inside others) h =
    beside (Below-of-listed path parent others h)
Below-of-listed path parent (folder name false inside others) h =
    let all =
      any-append (text_eq path) (sub_folders_each (full_path parent name) inside)
        (sub_folders_each parent others) in
    elim (Bool-cases (text_eq path (full_path parent name))) [
      | inl p ↦ here ((text_eq_iff path (full_path parent name)).0 p)
      | inr p ↦ elim (Bool-cases (is_in path (sub_folders_each (full_path parent name) inside))) [
        | inl q ↦ deeper (Below-of-listed path (full_path parent name) inside q)
        | inr q ↦ beside (Below-of-listed path parent others (ground (arith, all)))
      ]
    ]

-- subFolders lists the folder itself and exactly the folders at any depth below it that are not
-- hidden and lie in no hidden one.
pub sub_folders_lem :
    (path parent : Text) (disk : Folders)
    → (is_in path (sub_folders parent disk) ≡ true) ↔ ((path ≡ parent) ⊎ Below path parent disk)
unfolding sub_folders
sub_folders_lem path parent disk = (
  λ h. elim (Bool-cases (text_eq path parent)) [
    | inl p ↦ inl ((text_eq_iff path parent).0 p)
    | inr p ↦ inr (Below-of-listed path parent disk (ground arith))
  ],
  λ h. elim h [
    | inl p ↦ ground (arith, text_eq_iff path parent)
    | inr b ↦ ground (arith, listed-of-Below path parent disk b)
  ],
)

pub is_in-add_path :
    (path new : Text) (ws : List Text)
    → is_in path (add_path ws new) ≡ (is_in path ws || text_eq path new)
is_in-add_path path new ws = elim (Bool-cases (is_in new ws)) [
  | inl p ↦ elim (Bool-cases (text_eq path new)) [
    | inl q ↦ rw p (ap (λ t. is_in t ws) ((text_eq_iff path new).0 q) ∙ p ∙ ground arith)
    | inr q ↦ rw p (ground arith)
  ]
  | inr p ↦ rw p (any-append (text_eq path) ws (new ∷ []) ∙ ground arith)
]

is_in-add_paths :
    (path : Text) (ws new : List Text)
    → is_in path (add_paths ws new) ≡ (is_in path ws || is_in path new)
is_in-add_paths path ws [] = ground arith
is_in-add_paths path ws (n ∷ new) =
    ground (arith, is_in-add_paths path (add_path ws n) new, is_in-add_path path n ws)

pub is_in-filter :
    (path gone : Text) (ws : List Text)
    → is_in path (filter (λ p. not (text_eq p gone)) ws)
      ≡ (is_in path ws && not (text_eq path gone))
is_in-filter path gone [] = refl
is_in-filter path gone (w ∷ ws) = ground (
  arith,
  is_in-filter path gone ws,
  text_eq_iff path w,
  text_eq_iff w gone,
  text_eq_iff path gone,
)

is_in-remove_paths :
    (path : Text) (ws gone : List Text)
    → is_in path (remove_paths ws gone) ≡ (is_in path ws && not (is_in path gone))
is_in-remove_paths path ws [] = ground arith
is_in-remove_paths path ws (g ∷ gone) =
    let less = filter (λ p. not (text_eq p g)) ws in
    ground (arith, is_in-remove_paths path less gone, is_in-filter path g ws)

module _ (disk : Folders) (c : Client) (path : Text)
    (configured : is_empty c.sync_dir ≡ false) where
  -- When an idle client with a synchronised folder starts a synchronisation, exactly those paths
  -- stay watched that were watched and are none of its folders.
  pub start_synchronisation-watched :
      (b : Bool)
      → c.sync_in_progress ≡ false
      → is_in path (start_synchronisation disk b c).watched
        ≡ (is_in path c.watched && not (is_in path (sub_folders c.sync_dir disk)))
  unfolding start_synchronisation stop_watcher
  start_synchronisation-watched b idle =
      rw (idle, configured) (is_in-remove_paths path c.watched (sub_folders c.sync_dir disk))

  -- When a synchronisation of a client with a synchronised folder ends and no further one is
  -- wanted, its folders are watched besides what was watched before.
  pub handle_sync_is_finished-watched :
      c.need_to_sync ≡ false
      → is_in path (handle_sync_is_finished disk c).watched
        ≡ (is_in path c.watched || is_in path (sub_folders c.sync_dir disk))
  unfolding handle_sync_is_finished install_watcher
  handle_sync_is_finished-watched done =
      grind (arith, is_in-add_paths path c.watched (sub_folders c.sync_dir disk))

  -- When a client with a synchronised folder gets its connection, its folders are watched besides
  -- what was watched before, and a synchronisation that is in progress stays so: the watcher then
  -- sees the changes that unison makes.
  pub handle_socket_connected-watched :
      ((handle_socket_connected disk c).sync_in_progress ≡ c.sync_in_progress)
      × (is_in path (handle_socket_connected disk c).watched
          ≡ (is_in path c.watched || is_in path (sub_folders c.sync_dir disk)))
  unfolding handle_socket_connected install_watcher send_greetings
  handle_socket_connected-watched =
      (ground arith, grind (arith, is_in-add_paths path c.watched (sub_folders c.sync_dir disk)))
