-- ===== src/Server/Storage/Cache.antt =====
-- The hash cache never gives a wrong hash.
use sis_op.Base.{
  ℕ, ◌≡◌, refl, ap, Option, some, List, [], ◌∷◌, length, arith, Bool-cases, inl, inr, Option-cases,
}
use sis_op.Base.Int.{eq_of_int_eq}
use sis_op.Base.Keys.{Bytes, same, bytes_key, eq_of_same}
use sis_op.Base.Dict.{lookup, insert, lookup-insert}
use sis_op.Files.Info.{FileInfo}
use sis_op.Files.Hash.{fnv}
use sis_op.Files.System.{File, FileSystem, hash_file, stat_file}
use sis_op.Server.Storage.{HashCache, file_path, cached_hash, list_file, list_files}

module _ (F : FileSystem) where
  open F use {Disk, read, rename, unlink, utime, mkdirs}

  -- A saved hash is that of the file at its path, as long as the file has the saved size and
  -- modification time.
  pub record IsSound (d : Disk) (cache : HashCache) : Type 0 where
    pub sound :
        (path : Bytes) (saved : FileInfo) (f : File)
        → lookup path cache ≡ some saved
        → read d path ≡ some f
        → length f.content ≡ saved.size
        → f.mtime_ns ≡ saved.mtime_ns
        → saved.hash ≡ fnv f.content

  -- The file that the walk met is still the one on the disk.
  pub record IsCurrent (d : Disk) (path : Bytes) (file : FileInfo) (f : File) : Type 0 where
    pub there : read d path ≡ some f
    pub sized : length f.content ≡ file.size
    pub timed : f.mtime_ns ≡ file.mtime_ns

  hash_file_lem :
      (d : Disk) (path : Bytes) (f : File)
      → read d path ≡ some f
      → hash_file F d path ≡ some (fnv f.content)
  unfolding hash_file stat_file
  hash_file_lem d path f h = rw (h, hash_file)

  cached_hash_lem :
      (d : Disk) (path : Bytes) (file : FileInfo) (f : File) (cache : HashCache) (hash : ℕ)
      → IsSound d cache
      → IsCurrent d path file f
      → cached_hash cache path file ≡ some hash
      → hash ≡ fnv f.content
  unfolding cached_hash
  cached_hash_lem d path file f cache hash s c h = elim (Option-cases (lookup path cache)) [
    | inl e ↦ cc (rw (e, cached_hash) at h)
    | inr (saved, e) ↦ ground (
      arith,
      rw (e, cached_hash) at h,
      eq_of_int_eq saved.mtime_ns file.mtime_ns,
      s.sound path saved f e c.there,
      c.sized,
      c.timed,
    )
  ]

  insert-IsSound :
      (d : Disk) (path : Bytes) (file : FileInfo) (f : File) (cache : HashCache)
      → IsSound d cache
      → read d path ≡ some f
      → file.hash ≡ fnv f.content
      → IsSound d (insert path file cache)
  insert-IsSound d path file f cache s there hashed = record {
    sound = λ p saved g e r z t. elim (Bool-cases (same path p)) [
      | inl eq ↦
          ground (
            arith,
            rw (lookup-insert, eq) at e,
            hashed,
            there,
            r,
            ap (read d) (eq_of_same path p eq),
          )
      | inr ne ↦ s.sound p saved g (rw (lookup-insert, ne) at e) r z t
    ];
  }

  -- A file of the walk that is still on the disk gets its true hash, from the cache or not, and the
  -- cache stays sound.
  list_file_lem :
      (d : Disk) (path : Bytes) (file : FileInfo) (f : File) (cache : HashCache)
      → IsSound d cache
      → IsCurrent d path file f
      → ((list_file F d path file cache).0 ≡ some (record file { hash = fnv f.content }))
        × IsSound d (list_file F d path file cache).1
  unfolding list_file
  list_file_lem d path file f cache s c = elim (Option-cases (cached_hash cache path file)) [
    | inr (hash, hit) ↦
        rw (hit, list_file)
          (
            ap {B = Option FileInfo} (λ (h : ℕ). some (record file { hash = h }))
                (cached_hash_lem d path file f cache hash s c hit),
            s,
          )
    | inl miss ↦
        rw (miss, hash_file_lem d path f c.there, list_file)
          (
            refl,
            insert-IsSound d path (record file { hash = fnv f.content }) f cache s c.there refl,
          )
  ]

  -- The walk's files with the files on the disk.
  abbrev pub AreCurrent : Disk → Bytes → Bytes → List FileInfo → List File → Type 0
  AreCurrent d root user [] [] = Unit
  AreCurrent d root user [] (f ∷ fs) = ⊥
  AreCurrent d root user (file ∷ files) [] = ⊥
  AreCurrent d root user (file ∷ files) (f ∷ fs) =
      IsCurrent d (file_path root user file.name) file f × AreCurrent d root user files fs

  -- The walk's files, each with the hash of its content.
  abbrev pub hashed : List FileInfo → List File → List FileInfo
  hashed [] fs = []
  hashed (file ∷ files) [] = []
  hashed (file ∷ files) (f ∷ fs) = record file { hash = fnv f.content } ∷ hashed files fs

  -- A listing of files that do not change meanwhile gives every file of the walk, each with the
  -- hash of its content, and keeps the cache sound.
  pub list_files_lem :
      (d : Disk) (root user : Bytes) (files : List FileInfo) (fs : List File) (cache : HashCache)
      → IsSound d cache
      → AreCurrent d root user files fs
      → ((list_files F d root user files cache).0 ≡ hashed files fs)
        × IsSound d (list_files F d root user files cache).1
  unfolding list_files
  list_files_lem d root user [] [] cache s c = (refl, s)
  list_files_lem d root user [] (f ∷ fs) cache s c = absurd c
  list_files_lem d root user (file ∷ files) [] cache s c = absurd c
  list_files_lem d root user (file ∷ files) (f ∷ fs) cache s c =
      let one = list_file_lem d (file_path root user file.name) file f cache s c.0 in
      let rest = list_files_lem d root user files fs _ one.1 c.1 in
      (rw (one.0, list_files) (ap (◌∷◌ (record file { hash = fnv f.content })) rest.0), rest.1)
