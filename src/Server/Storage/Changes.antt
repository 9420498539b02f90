-- ===== src/Server/Storage/Changes.antt =====
-- What a commit and a removal do to the files.
use sis_op.Base.{◌≡◌, ◌∙◌, true, ◌&&◌, none, some, arith, if◌then◌else◌, Bool-cases, inl, inr}
use sis_op.Base.Int.{ℤ}
use sis_op.Base.Keys.{Bytes, same, bytes_key, bytes_cmp_self}
use sis_op.Files.System.{
  File, FileSystem, IsPosix, make_parent_dirs, read-make_parent_dirs, read-remove_empty_parents,
}
use sis_op.Server.Storage.{HashCache, user_dir, file_path, replace, commit, remove}

module _ (F : FileSystem) (posix : IsPosix F) where
  open F use {Disk, read, rename, unlink, utime, mkdirs}

  -- `d'` is `d` with the file at `path` moved there from `temp` under another modification time.
  abbrev pub Stored : Disk → Disk → Bytes → Bytes → File → ℤ → Type 0
  Stored d d' path temp f mtime_ns =
      (p : Bytes)
      → read d' p ≡ (
          if same path p
          then some (record f { mtime_ns = mtime_ns })
          else if same temp p
          then none
          else read d p)

  replace-Stored :
      (d : Disk) (path temp : Bytes) (mtime_ns : ℤ) (cache : HashCache) (f : File)
      → read d temp ≡ some f
      → (replace F d path temp mtime_ns cache).2 ≡ true
      → Stored d (replace F d path temp mtime_ns cache).0 path temp f mtime_ns
  unfolding replace
  replace-Stored d path temp mtime_ns cache f h done p =
      rw
        (posix.read-rename (utime d temp mtime_ns) temp path (record f { mtime_ns = mtime_ns })
          there done p)
        (ground (arith, posix.utime-read d temp mtime_ns p))
    where
      there : read (utime d temp mtime_ns) temp ≡ some (record f { mtime_ns = mtime_ns })
      there = ground (arith, posix.utime-read d temp mtime_ns temp, bytes_cmp_self temp)

  -- A commit that succeeds puts the received file, with the given modification time, in the place
  -- of what was there, removes the temporary one and touches no other file.
  pub commit-Stored :
      (d : Disk) (root user path temp : Bytes) (mtime_ns : ℤ) (cache : HashCache) (f : File)
      → read d temp ≡ some f
      → (commit F d root user path temp mtime_ns cache).2 ≡ true
      → Stored d
          (commit F d root user path temp mtime_ns cache).0
          (file_path root user path)
          temp
          f
          mtime_ns
  unfolding commit
  commit-Stored d root user path temp mtime_ns cache f h done p =
      elim (Bool-cases (mkdirs d (user_dir root user)).1) [
        | inr no_dir ↦ cc (rw no_dir at done)
        | inl dir ↦ elim (Bool-cases (make_parent_dirs F d' (user_dir root user) path).1) [
          | inr no_parents ↦ cc (rw (dir, no_parents) at done)
          | inl parents ↦
              rw (dir, parents)
                (replace-Stored d'' (file_path root user path) temp mtime_ns cache f
                    (same_files temp ∙ h) (rw (dir, parents) at done) p
                  ∙ rw (same_files p))
        ]
      ]
    where
      d' : Disk
      d' = (mkdirs d (user_dir root user)).0

      d'' : Disk
      d'' = (make_parent_dirs F d' (user_dir root user) path).0

      same_files : (q : Bytes) → read d'' q ≡ read d q
      same_files q =
          read-make_parent_dirs F posix d' (user_dir root user) path q
          ∙ posix.read-mkdirs d (user_dir root user) q

  -- A removal reports success exactly if the file is gone because of it, and touches no other file.
  pub remove-read :
      (d : Disk) (root user path : Bytes) (cache : HashCache) (p : Bytes)
      → read (remove F d root user path cache).0 p ≡ (
          if (remove F d root user path cache).2 && same (file_path root user path) p
          then none
          else read d p)
  unfolding remove
  remove-read d root user path cache p = elim (Bool-cases (unlink d (file_path root user path)).1) [
    | inl done ↦ rw done (
        read-remove_empty_parents F posix _ (user_dir root user) path p
        ∙ rw posix.read-unlink (rw done))
    | inr failed ↦ rw failed (rw posix.read-unlink (rw failed))
  ]
