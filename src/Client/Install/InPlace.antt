-- ===== src/Client/Install/InPlace.antt =====
-- install on a disk that refuses nothing.
use sis_op.Base.{ℕ, ◌≡◌, refl, ◌∙◌, true, false, some}
use sis_op.Base.Keys.{Bytes, same, bytes_key, same_self}
use sis_op.Files.Info.{FileInfo}
use sis_op.Files.Names.{join_path}
use sis_op.Files.System.{
  File, FileSystem, IsPosix, IsWilling, make_parent_dirs-IsWilling, make_parent_dirs,
  read-make_parent_dirs,
}
use sis_op.Client.SyncState.{SyncState, set}
use sis_op.Client.Install.{place, install}
use sis_op.Client.Install.Keeps.{set_aside-read_other}

module _ (F : FileSystem) (posix : IsPosix F) (willing : IsWilling F) where
  open F use {Disk, read, rename, unlink, utime}

  place-read :
      (d : Disk) (root : Bytes) (state : SyncState) (temp name : Bytes) (info : FileInfo) (f : File)
      → read d temp ≡ some f
      → read (place F d root state temp name info).0 (join_path root name)
        ≡ some (record f { mtime_ns = info.mtime_ns })
  unfolding place
  place-read d root state temp name info f there =
      rw (parents, willing.moves d' temp path (record f { mtime_ns = info.mtime_ns }) timed)
        (posix.read-rename d' temp path (record f { mtime_ns = info.mtime_ns }) timed
            (willing.moves d' temp path (record f { mtime_ns = info.mtime_ns }) timed) path
          ∙ rw (same_self path))
    where
      t : Disk
      t = utime d temp info.mtime_ns

      path : Bytes
      path = join_path root name

      d' : Disk
      d' = (make_parent_dirs F t root name).0

      parents : (make_parent_dirs F t root name).1 ≡ true
      parents = make_parent_dirs-IsWilling F willing t root name

      timed : read d' temp ≡ some (record f { mtime_ns = info.mtime_ns })
      timed =
          read-make_parent_dirs F posix t root name temp
          ∙ posix.utime-read d temp info.mtime_ns temp
          ∙ rw (same_self temp) (rw there)

  place-state :
      (d : Disk) (root : Bytes) (state : SyncState) (temp name : Bytes) (info : FileInfo) (f : File)
      → read d temp ≡ some f
      → (place F d root state temp name info).1 ≡ set (record info { name = name }) state
  unfolding place
  place-state d root state temp name info f there =
      let t = utime d temp info.mtime_ns in
      let d' = (make_parent_dirs F t root name).0 in
      let timed : read d' temp ≡ some (record f { mtime_ns = info.mtime_ns }) =
        read-make_parent_dirs F posix t root name temp
        ∙ posix.utime-read d temp info.mtime_ns temp
        ∙ rw (same_self temp) (rw there) in
      rw
        (
          make_parent_dirs-IsWilling F willing t root name,
          willing.moves d' temp (join_path root name) (record f { mtime_ns = info.mtime_ns }) timed,
        )
        refl

  -- On a disk that refuses nothing, the received file is in place and recorded.
  pub install-placed :
      (fuel : ℕ) (stamp : Bytes) (d : Disk) (root : Bytes) (state : SyncState) (temp name : Bytes)
      (info : FileInfo) (f : File)
      → read d temp ≡ some f
      → same (join_path root name) temp ≡ false
      → let r = install F fuel stamp d root state temp name info in
        (read r.0 (join_path root name) ≡ some (record f { mtime_ns = info.mtime_ns }))
        × (r.1 ≡ set (record info { name = name }) state)
  unfolding install
  install-placed fuel stamp d root state temp name info f there apart =
      let still =
        set_aside-read_other F posix fuel stamp d root state name info temp f there apart in
      (
        place-read _ root state temp name info f still,
        place-state _ root state temp name info f still,
      )
