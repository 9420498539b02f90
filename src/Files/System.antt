-- ===== src/Files/System.antt =====
-- The file system that the program calls, and the functions of common/files.cpp over it.
pub mod Memory
use sis_op.Base.{
  ℕ, zero, suc, ◌≡◌, refl, arith, Bool, true, false, not, ◌&&◌, ◌||◌, Option, none, some, List, [],
  ◌∷◌, ◌++◌, length, ◌==◌, if◌then◌else◌, take, drop,
}
use sis_op.Base.Int.{ℤ}
use sis_op.Base.Keys.{Bytes, same, bytes_key}
use sis_op.Files.Info.{FileInfo}
use sis_op.Files.Names.{join_path, parent_path, slash}
use sis_op.Files.Hash.{fnv}

-- A regular file.
pub record File : Type 0 where
  pub content : Bytes
  pub mtime_ns : ℤ

-- The system calls: what a path holds, if it is a regular file, and the calls that change the
-- disk, with their success.
pub record FileSystem : Type 1 where
  pub Disk : Type 0
  pub read : Disk → Bytes → Option File
  pub write : Disk → Bytes → Bytes → Disk × Bool
  pub rename : Disk → Bytes → Bytes → Disk × Bool
  pub unlink : Disk → Bytes → Disk × Bool
  pub utime : Disk → Bytes → ℤ → Disk
  pub mkdirs : Disk → Bytes → Disk × Bool
  pub rmdir : Disk → Bytes → Disk × Bool

-- The file with another modification time.
abbrev pub touched : ℤ → Option File → Option File
touched t none = none
touched t (some f) = some (record f { mtime_ns = t })

-- What POSIX says of the calls, as far as regular files show it.
pub record IsPosix (F : FileSystem) : Type 0 where
  -- A file that was created and written whole can be read; no other is touched, in no case.
  pub read-write :
      (d : F.Disk) (path content : Bytes)
      → (F.write d path content).1 ≡ true
      → (t : ℤ) × (F.read (F.write d path content).0 path
          ≡ some (record { content = content; mtime_ns = t }))
  pub read-write_other :
      (d : F.Disk) (path content p : Bytes)
      → same path p ≡ false
      → F.read (F.write d path content).0 p ≡ F.read d p
  -- A successful rename moves a file and touches no other.
  pub read-rename :
      (d : F.Disk) (from to : Bytes) (f : File)
      → F.read d from ≡ some f
      → (F.rename d from to).1 ≡ true
      → (p : Bytes)
      → F.read (F.rename d from to).0 p
        ≡ (if same to p then some f else if same from p then none else F.read d p)
  -- A failed one touches none.
  pub read-rename_failed :
      (d : F.Disk) (from to : Bytes)
      → (F.rename d from to).1 ≡ false
      → (p : Bytes) → F.read (F.rename d from to).0 p ≡ F.read d p
  pub read-unlink :
      (d : F.Disk) (path p : Bytes)
      → F.read (F.unlink d path).0 p
        ≡ (if (F.unlink d path).1 && same path p then none else F.read d p)
  pub utime-read :
      (d : F.Disk) (path : Bytes) (t : ℤ) (p : Bytes)
      → F.read (F.utime d path t) p ≡ (if same path p then touched t (F.read d p) else F.read d p)
  pub read-mkdirs : (d : F.Disk) (path p : Bytes) → F.read (F.mkdirs d path).0 p ≡ F.read d p
  pub read-rmdir : (d : F.Disk) (path p : Bytes) → F.read (F.rmdir d path).0 p ≡ F.read d p

-- A disk with room, on which no call is refused that has something to act on.
pub record IsWilling (F : FileSystem) : Type 0 where
  pub writes : (d : F.Disk) (path content : Bytes) → (F.write d path content).1 ≡ true
  pub makes : (d : F.Disk) (path : Bytes) → (F.mkdirs d path).1 ≡ true
  pub moves :
      (d : F.Disk) (from to : Bytes) (f : File)
      → F.read d from ≡ some f
      → (F.rename d from to).1 ≡ true
  pub removes :
      (d : F.Disk) (path : Bytes) (f : File) → F.read d path ≡ some f → (F.unlink d path).1 ≡ true

module _ (F : FileSystem) where
  open F use {Disk, read, rename, unlink, utime, mkdirs, rmdir}

  -- stat_file: size, modification time and, where asked for, content hash of a regular file.
  unfoldable pub stat_file : Disk → Bytes → Bytes → Bool → Option FileInfo
  stat_file d path name with_hash = elim (read d path) [
    | none ↦ none
    | some f ↦ some (record {
      name = name;
      size = length f.content;
      mtime_ns = f.mtime_ns;
      hash = if with_hash then fnv f.content else 0;
    })
  ]

  unfoldable pub hash_file : Disk → Bytes → Option ℕ
  hash_file d path = elim (stat_file d path [] true) [ none ↦ none | some info ↦ some info.hash ]

  unfoldable pub make_parent_dirs : Disk → Bytes → Bytes → Disk × Bool
  make_parent_dirs d root relative =
      if length (parent_path relative) == 0
      then (d, true)
      else mkdirs d (join_path root (parent_path relative))

  -- The loop of remove_empty_parents: it ends where a parent is the empty string. Each parent is
  -- shorter than the path, so the length of the path is fuel enough.
  unfoldable pub remove_parents : ℕ → Disk → Bytes → Bytes → Disk
  remove_parents zero d root dir = d
  remove_parents (suc fuel) d root dir =
      let next = remove_parents fuel (rmdir d (join_path root dir)).0 root (parent_path dir) in
      if length dir == 0
      then d
      else if (rmdir d (join_path root dir)).1
      then next
      else (rmdir d (join_path root dir)).0

  unfoldable pub remove_empty_parents : Disk → Bytes → Bytes → Disk
  remove_empty_parents d root relative =
      remove_parents (length relative) d root (parent_path relative)

  read-remove_parents :
      IsPosix F
      → (fuel : ℕ) (d : Disk) (root dir p : Bytes)
      → read (remove_parents fuel d root dir) p ≡ read d p
  unfolding remove_parents
  read-remove_parents posix zero d root dir p = refl
  read-remove_parents posix (suc fuel) d root dir p = ground (
    arith,
    posix.read-rmdir d (join_path root dir) p,
    read-remove_parents posix fuel (rmdir d (join_path root dir)).0 root (parent_path dir) p,
  )

  -- Removing empty directories removes no file.
  pub read-remove_empty_parents :
      IsPosix F
      → (d : Disk) (root relative p : Bytes)
      → read (remove_empty_parents d root relative) p ≡ read d p
  unfolding remove_empty_parents
  read-remove_empty_parents posix d root relative p =
      read-remove_parents posix (length relative) d root (parent_path relative) p

  pub read-make_parent_dirs :
      IsPosix F
      → (d : Disk) (root relative p : Bytes)
      → read (make_parent_dirs d root relative).0 p ≡ read d p
  unfolding make_parent_dirs
  read-make_parent_dirs posix d root relative p =
      ground (arith, posix.read-mkdirs d (join_path root (parent_path relative)) p)

  pub make_parent_dirs-IsWilling :
      IsWilling F → (d : Disk) (root relative : Bytes) → (make_parent_dirs d root relative).1 ≡ true
  unfolding make_parent_dirs
  make_parent_dirs-IsWilling willing d root relative =
      ground (arith, willing.makes d (join_path root (parent_path relative)))
