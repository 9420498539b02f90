-- ===== src/Server/Storage.antt =====
-- server/storage.hpp and server/storage.cpp over a file system. The walk through a user's folder
-- (list_tree) is an argument of `list`; the names of temporary files are chosen by the caller.
pub mod Cache
pub mod Changes
pub mod Kept
use sis_op.Base.{
  ℕ, Bool, true, false, not, ◌&&◌, ◌||◌, Option, none, some, List, [], ◌∷◌, ◌==◌, if◌then◌else◌,
}
use sis_op.Base.Int.{ℤ, int_eq}
use sis_op.Base.Keys.{Bytes, bytes_key}
use sis_op.Base.Dict.{Dict, lookup, insert, erase}
use sis_op.Protocol.Names.{text}
use sis_op.Files.Info.{FileInfo}
use sis_op.Files.Names.{join_path}
use sis_op.Files.System.{FileSystem, hash_file, make_parent_dirs, remove_empty_parents}

-- hash_cache_, by full path.
abbrev pub HashCache : Type 0
HashCache = Dict Bytes FileInfo

unfoldable pub user_dir : Bytes → Bytes → Bytes
user_dir root user = join_path (join_path root (text "users")) user

unfoldable pub file_path : Bytes → Bytes → Bytes → Bytes
file_path root user path = join_path (user_dir root user) path

-- The saved hash, if the cache has the file with this size and modification time.
unfoldable pub cached_hash : HashCache → Bytes → FileInfo → Option ℕ
cached_hash cache path file = elim (lookup path cache) [
  | none ↦ none
  | some saved ↦
      if saved.size == file.size && int_eq saved.mtime_ns file.mtime_ns
      then some saved.hash
      else none
]

module _ (F : FileSystem) where
  open F use {Disk, rename, unlink, utime, mkdirs}

  -- What `list` does with one file of the walk: the file with its hash, unless it vanished, and the
  -- cache.
  unfoldable pub list_file : Disk → Bytes → FileInfo → HashCache → Option FileInfo × HashCache
  list_file d path file cache = elim (cached_hash cache path file) [
    | some hash ↦ (some (record file { hash = hash }), cache)
    | none ↦ elim (hash_file F d path) [
      | none ↦ (none, cache)
      | some hash ↦
          (some (record file { hash = hash }), insert path (record file { hash = hash }) cache)
    ]
  ]

  abbrev add : Option FileInfo → List FileInfo → List FileInfo
  add none files = files
  add (some file) files = file ∷ files

  -- The loop of `list` over the walk's files.
  unfoldable pub list_files :
      Disk → Bytes → Bytes → List FileInfo → HashCache → List FileInfo × HashCache
  list_files d root user [] cache = ([], cache)
  list_files d root user (file ∷ files) cache =
      let (found, cache') = list_file d (file_path root user file.name) file cache in
      let (hashed, cache'') = list_files d root user files cache' in (add found hashed, cache'')

  -- The end of `commit`, with the folders in place.
  unfoldable pub replace : Disk → Bytes → Bytes → ℤ → HashCache → Disk × HashCache × Bool
  replace d path temp mtime_ns cache =
      let (d', done) = rename (utime d temp mtime_ns) temp path in (d', erase path cache, done)

  unfoldable pub commit :
      Disk → Bytes → Bytes → Bytes → Bytes → ℤ → HashCache → Disk × HashCache × Bool
  commit d root user path temp mtime_ns cache =
      let (d', made) = mkdirs d (user_dir root user) in
      let (d'', parents) = make_parent_dirs F d' (user_dir root user) path in
      if made
      then (if parents
          then replace d'' (file_path root user path) temp mtime_ns cache
          else (d'', cache, false))
      else (d', cache, false)

  unfoldable pub remove : Disk → Bytes → Bytes → Bytes → HashCache → Disk × HashCache × Bool
  remove d root user path cache =
      let (d', done) = unlink d (file_path root user path) in
      if done
      then (
        remove_empty_parents F d' (user_dir root user) path,
        erase (file_path root user path) cache,
        true,
      )
      else (d', cache, false)
