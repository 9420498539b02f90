-- ===== src/Server/Storage/Kept.antt =====
-- Commits and removals keep the hash cache sound.
use sis_op.Base.{◌≡◌, ap, sym, ◌∙◌, false, none, some, arith, Bool-cases, inl, inr}
use sis_op.Base.Int.{ℤ}
use sis_op.Base.Keys.{Bytes, same, bytes_key, eq_of_same, same_self}
use sis_op.Base.Dict.{lookup, erase, lookup-erase}
use sis_op.Files.Info.{FileInfo}
use sis_op.Files.System.{
  File, FileSystem, IsPosix, make_parent_dirs, read-make_parent_dirs, read-remove_empty_parents,
}
use sis_op.Server.Storage.{HashCache, user_dir, file_path, replace, commit, remove}
use sis_op.Server.Storage.Cache.{IsSound}

module _ (F : FileSystem) (posix : IsPosix F) where
  open F use {Disk, read, rename, unlink, utime, mkdirs}

  -- Where the cache has an entry, the disk has not changed.
  abbrev Narrows : Disk → HashCache → Disk → HashCache → Type 0
  Narrows d cache d' cache' =
      (p : Bytes) (saved : FileInfo) (g : File)
      → lookup p cache' ≡ some saved
      → read d' p ≡ some g
      → (lookup p cache ≡ some saved) × (read d p ≡ some g)

  Narrows-IsSound :
      (d d' : Disk) (cache cache' : HashCache)
      → Narrows d cache d' cache'
      → IsSound F d cache
      → IsSound F d' cache'
  Narrows-IsSound d d' cache cache' n s = record {
    sound = λ p saved g e r z t. s.sound p saved g (n p saved g e r).0 (n p saved g e r).1 z t;
  }

  erase-Narrows :
      (path p : Bytes) (cache : HashCache) (saved : FileInfo)
      → lookup p (erase path cache) ≡ some saved
      → (same path p ≡ false) × (lookup p cache ≡ some saved)
  erase-Narrows path p cache saved e = elim (Bool-cases (same path p)) [
    | inl eq ↦ cc (rw (lookup-erase, eq) at e)
    | inr ne ↦ (ne, rw (lookup-erase, ne) at e)
  ]

  differ :
      (temp p : Bytes) (cache : HashCache) {saved : FileInfo}
      → lookup temp cache ≡ none
      → lookup p cache ≡ some saved
      → same temp p ≡ false
  differ temp p cache fresh e = elim (Bool-cases (same temp p)) [
    | inl eq ↦ cc (ap (λ q. lookup q cache) (eq_of_same temp p eq))
    | inr ne ↦ ne
  ]

  replace-Narrows :
      (d : Disk) (path temp : Bytes) (mtime_ns : ℤ) (cache : HashCache) (f : File)
      → read d temp ≡ some f
      → lookup temp cache ≡ none
      → Narrows d cache
          (replace F d path temp mtime_ns cache).0
          (replace F d path temp mtime_ns cache).1
  unfolding replace
  replace-Narrows d path temp mtime_ns cache f there fresh p saved g e r =
      let kept = erase-Narrows path p cache saved e in
      let not_temp = differ temp p cache fresh kept.1 in
      elim (Bool-cases (rename (utime d temp mtime_ns) temp path).1) [
        | inl done ↦ (
          kept.1,
          ground (
            arith,
            kept.0,
            r,
            posix.read-rename (utime d temp mtime_ns) temp path (record f { mtime_ns = mtime_ns })
                touched_f done p,
            posix.utime-read d temp mtime_ns p,
          ),
        )
        | inr failed ↦ (
          kept.1,
          ground (
            arith,
            kept.1,
            fresh,
            not_temp,
            r,
            posix.read-rename_failed (utime d temp mtime_ns) temp path failed p,
            posix.utime-read d temp mtime_ns p,
          ),
        )
      ]
    where
      touched_f : read (utime d temp mtime_ns) temp ≡ some (record f { mtime_ns = mtime_ns })
      touched_f = rw posix.utime-read (rw (same_self temp) (rw there))

  -- A commit, successful or not, of a temporary file that the cache does not know leaves the cache
  -- sound: what it may have saved of the replaced file is forgotten.
  pub commit-IsSound :
      (d : Disk) (root user path temp : Bytes) (mtime_ns : ℤ) (cache : HashCache) (f : File)
      → read d temp ≡ some f
      → lookup temp cache ≡ none
      → IsSound F d cache
      → let r = commit F d root user path temp mtime_ns cache in IsSound F r.0 r.1
  unfolding commit
  commit-IsSound d root user path temp mtime_ns cache f there fresh s =
      elim (Bool-cases (mkdirs d (user_dir root user)).1) [
        | inr no_dir ↦ rw no_dir (
            Narrows-IsSound d d' cache cache
              (λ p saved g e r. (e, ground (arith, posix.read-mkdirs d (user_dir root user) p))) s)
        | inl dir ↦ elim (Bool-cases (make_parent_dirs F d' (user_dir root user) path).1) [
          | inr no_parents ↦ rw (dir, no_parents) here
          | inl parents ↦
              rw (dir, parents)
                (Narrows-IsSound d'' _ cache _
                  (replace-Narrows d'' (file_path root user path) temp mtime_ns cache f
                    (same_files temp ∙ there) fresh)
                  here)
        ]
      ]
    where
      d' : Disk
      d' = (mkdirs d (user_dir root user)).0

      d'' : Disk
      d'' = (make_parent_dirs F d' (user_dir root user) path).0

      same_files : (q : Bytes) → read d'' q ≡ read d q
      same_files q =
          read-make_parent_dirs F posix d' (user_dir root user) path q
          ∙ posix.read-mkdirs d (user_dir root user) q

      here : IsSound F d'' cache
      here = Narrows-IsSound d d'' cache cache (λ p saved g e r. (e, sym (same_files p) ∙ r)) s

  -- So does a removal.
  pub remove-IsSound :
      (d : Disk) (root user path : Bytes) (cache : HashCache)
      → IsSound F d cache
      → let r = remove F d root user path cache in IsSound F r.0 r.1
  unfolding remove
  remove-IsSound d root user path cache s = elim (Bool-cases (unlink d full).1) [
    | inl done ↦ rw done (
        Narrows-IsSound d _ cache _
          (λ p saved g e r.
            let kept = erase-Narrows full p cache saved e in
            (
              kept.1,
              ground (
                arith,
                r,
                done,
                kept.0,
                read-remove_empty_parents F posix (unlink d full).0 (user_dir root user) path p,
                posix.read-unlink d full p,
              ),
            ))
          s)
    | inr failed ↦ rw failed (
        Narrows-IsSound d _ cache cache
          (λ p saved g e r. (e, ground (arith, r, failed, posix.read-unlink d full p))) s)
  ]
    where
      full : Bytes
      full = file_path root user path
