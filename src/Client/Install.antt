-- ===== src/Client/Install.antt =====
-- local_file, fill_hash and install of client/client.cpp. The writes of the state file and the
-- messages to the user are left out.
pub mod Unsynced
pub mod Keeps
pub mod InPlace
use sis_op.Base.{ℕ, Bool, true, false, not, ◌&&◌, Option, none, some, ◌==◌, if◌then◌else◌}
use sis_op.Base.Int.{ℤ, int_eq}
use sis_op.Base.Keys.{Bytes}
use sis_op.Files.Info.{FileInfo}
use sis_op.Files.Names.{join_path}
use sis_op.Files.System.{FileSystem, stat_file, hash_file, make_parent_dirs}
use sis_op.Client.SyncState.{SyncState, get, set, forget}
use sis_op.Client.Decide.{same_content}
use sis_op.Client.ConflictName.{conflict_name}

-- The base matches the file's size and modification time, so its hash is reused.
unfoldable pub saved_hash : SyncState → FileInfo → Option ℕ
saved_hash state file = elim (get file.name state) [
  | none ↦ none
  | some base ↦
      if base.size == file.size && int_eq base.mtime_ns file.mtime_ns then some base.hash else none
]

-- The base records this content.
unfoldable pub is_synced : SyncState → Bytes → FileInfo → Bool
is_synced state name file = elim (get name state) [
  | none ↦ false
  | some base ↦ same_content base file
]

module _ (F : FileSystem) where
  open F use {Disk, rename, unlink, utime}

  abbrev with_hash : FileInfo → Option ℕ → Option FileInfo
  with_hash file none = none
  with_hash file (some hash) = some (record file { hash = hash })

  unfoldable pub fill_hash : Disk → Bytes → SyncState → FileInfo → Option FileInfo
  fill_hash d root state file = elim (saved_hash state file) [
    | some hash ↦ some (record file { hash = hash })
    | none ↦ with_hash file (hash_file F d (join_path root file.name))
  ]

  unfoldable pub local_file : Disk → Bytes → SyncState → Bytes → Option FileInfo
  local_file d root state name = elim (stat_file F d (join_path root name) name false) [
    | none ↦ none
    | some info ↦ fill_hash d root state info
  ]

  -- The local version has changes that were never synced.
  unfoldable pub has_edits : Disk → Bytes → SyncState → Bytes → FileInfo → Bool
  has_edits d root state name info = elim (local_file d root state name) [
    | none ↦ false
    | some current ↦ not (same_content current info) && not (is_synced state name current)
  ]

  -- The conflicted copy, if there is a name for it.
  unfoldable pub move_aside : Disk → Bytes → Bytes → Option Bytes → Disk
  move_aside d root name none = d
  move_aside d root name (some copy) = (rename d (join_path root name) (join_path root copy)).0

  unfoldable pub set_aside : ℕ → Bytes → Disk → Bytes → SyncState → Bytes → FileInfo → Disk
  set_aside fuel stamp d root state name info =
      if has_edits d root state name info
      then move_aside d root name (conflict_name F fuel d root name stamp)
      else d

  -- The received file moves into place, and the state records it; or it is dropped.
  unfoldable pub place : Disk → Bytes → SyncState → Bytes → Bytes → FileInfo → Disk × SyncState
  place d root state temp name info =
      let entry = record info { name = name } in
      let (d', parents) = make_parent_dirs F (utime d temp info.mtime_ns) root name in
      let (d'', moved) = rename d' temp (join_path root name) in
      if parents
      then (if moved
          then (d'', set entry state)
          else ((unlink d'' temp).0, forget name (set entry state)))
      else ((unlink d' temp).0, forget name (set entry state))

  unfoldable pub install :
      ℕ → Bytes → Disk → Bytes → SyncState → Bytes → Bytes → FileInfo → Disk × SyncState
  install fuel stamp d root state temp name info =
      place (set_aside fuel stamp d root state name info) root state temp name info
