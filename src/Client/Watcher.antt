-- ===== src/Client/Watcher.antt =====
-- client/watcher.cpp: the watch descriptors of the folders below the root, and the events that inotify gives.
pub mod Watched
use sis_op.Base.{
  ℕ, Bool, true, false, not, ◌&&◌, ◌||◌, Option, none, some, List, [], ◌∷◌, ◌++◌, length, take,
  keep, ◌==◌, suc, if◌then◌else◌,
}
use sis_op.Base.Keys.{Bytes, same, nat_key, bytes_key}
use sis_op.Base.Dict.{Dict, lookup, insert, erase}
use sis_op.Files.Names.{slash, is_valid_file_name, is_valid_path}

-- What readdir and lstat find in a folder, in readdir's order; a folder that cannot be opened is empty.
pub data Folder : Type 0 where
  nothing : Folder
  file : Bytes → Folder → Folder
  folder : Bytes → Folder → Folder → Folder

unfoldable pub is_inside : Bytes → Bytes → Bool
is_inside path dir = same path dir || same (take (suc (length dir)) path) (dir ++ (slash ∷ []))

unfoldable pub child_path : Bytes → Bytes → Bytes
child_path dir name = if length dir == 0 then name else dir ++ (slash ∷ name)

pub record Watcher : Type 0 where
  pub root_wd : ℕ
  pub dirs : Dict ℕ Bytes

-- `add` is inotify_add_watch below the root: it gives a folder that is watched its descriptor again.
module _ (add : Bytes → Option ℕ) where
  -- The first lines of watch_tree, and whether it goes on.
  unfoldable pub watch_dir : Bytes → Dict ℕ Bytes → Dict ℕ Bytes × Bool
  watch_dir dir dirs = elim (add dir) [
    | none ↦ (dirs, false)
    | some wd ↦ (insert wd dir dirs, true)
  ]

  -- The loop of watch_tree over the entries of `dir`, with the calls for its folders.
  unfoldable pub watch_entries : Bytes → Folder → Dict ℕ Bytes → Dict ℕ Bytes
  watch_entries dir nothing dirs = dirs
  watch_entries dir (file name rest) dirs = watch_entries dir rest dirs
  watch_entries dir (folder name content rest) dirs =
      let child = child_path dir name in
      let (added, on) = watch_dir child dirs in
      let below = watch_entries child content added in
      watch_entries dir rest (
        if is_valid_file_name name && is_valid_path child
        then (if on then below else added)
        else dirs)

  unfoldable pub watch_tree : Bytes → Folder → Dict ℕ Bytes → Dict ℕ Bytes
  watch_tree dir content dirs =
      let (added, on) = watch_dir dir dirs in
      let below = watch_entries dir content added in
      if length dir == 0 then watch_entries dir content dirs else if on then below else added

  -- The map that `start` makes.
  unfoldable pub start : ℕ → Folder → Watcher
  start root_wd content = record {
    root_wd = root_wd;
    dirs = watch_tree [] content (insert root_wd [] []);
  }

unfoldable pub unwatch_tree : Bytes → Watcher → Watcher
unwatch_tree dir w = record w {
  dirs = keep (λ entry. not (not (entry.0 == w.root_wd) && is_inside entry.1 dir)) w.dirs;
}

-- The bits of the mask that the loop tests, the descriptor and the name, which is empty if there is none.
pub record InotifyEvent : Type 0 where
  pub overflow : Bool
  pub delete_self : Bool
  pub move_self : Bool
  pub ignored : Bool
  pub is_dir : Bool
  pub is_create : Bool
  pub moved_to : Bool
  pub delete : Bool
  pub moved_from : Bool
  pub wd : ℕ
  pub name : Bytes

-- What an event does: the paths that on_change_ is called with, or the end of the loop.
pub data Noticed : Type 0 where
  gone : Noticed
  watching : Watcher → List Bytes → Noticed

-- An event for a folder at `path`; `content` is what the folder holds.
unfoldable pub handle_folder :
    (Bytes → Option ℕ) → InotifyEvent → Folder → Bytes → Watcher → Watcher
handle_folder add e content path w =
    if e.is_create || e.moved_to
    then record w { dirs = watch_tree add path content w.dirs }
    else if e.delete || e.moved_from
    then unwatch_tree path w
    else w

unfoldable pub handle_path : (Bytes → Option ℕ) → InotifyEvent → Folder → Bytes → Watcher → Noticed
handle_path add e content path w =
    if not (is_valid_path path)
    then watching w []
    else if e.is_dir
    then watching (handle_folder add e content path w) ([] ∷ [])
    else watching w (if e.is_create then [] else path ∷ [])

-- One event of the loop.
unfoldable pub handle_event : (Bytes → Option ℕ) → InotifyEvent → Folder → Watcher → Noticed
handle_event add e content w =
    if e.overflow
    then watching w ([] ∷ [])
    else if e.wd == w.root_wd && (e.delete_self || e.move_self || e.ignored)
    then gone
    else if e.ignored
    then watching (record w { dirs = erase e.wd w.dirs }) []
    else elim (lookup e.wd w.dirs) [
      | none ↦ watching w []
      | some dir ↦
          if length e.name == 0
          then watching w []
          else handle_path add e content (child_path dir e.name) w
    ]
