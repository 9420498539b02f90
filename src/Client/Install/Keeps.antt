-- ===== src/Client/Install/Keeps.antt =====
-- What install does to the files.
use sis_op.Base.{
  ℕ, ◌≡◌, refl, ap, ◌∙◌, true, false, none, some, ◌≢◌, arith, if◌then◌else◌, Bool-cases,
  Option-cases, inl, inr,
}
use sis_op.Base.Keys.{Bytes, same, bytes_key, same_self, eq_of_same}
use sis_op.Files.Info.{FileInfo, version}
use sis_op.Files.Names.{join_path}
use sis_op.Files.System.{
  File, FileSystem, IsPosix, touched, stat_file, make_parent_dirs, read-make_parent_dirs,
}
use sis_op.Client.SyncState.{SyncState, get, set, forget}
use sis_op.Client.ConflictName.{conflict_name, conflict_name-read}
use sis_op.Client.Install.Unsynced.{content_version, Unsynced, has_edits-Unsynced}
use sis_op.Client.Install.{place, set_aside, move_aside, install, has_edits, local_file}

module _ (F : FileSystem) (posix : IsPosix F) where
  open F use {Disk, read, rename, unlink, utime}

  -- The outcome of `place`: the file is in place and recorded, or it was dropped and nothing else
  -- changed.
  pub data Placed (d : Disk) (temp path name : Bytes) (f : File) (info : FileInfo) (s : SyncState)
      (d' : Disk) (s' : SyncState) : Type 0 where
    placed :
        ((p : Bytes)
          → read d' p ≡ (
              if same path p
              then some (record f { mtime_ns = info.mtime_ns })
              else if same temp p
              then none
              else read d p))
        → s' ≡ set (record info { name = name }) s
        → Placed d temp path name f info s d' s'
    dropped :
        ((p : Bytes) → same temp p ≡ false → read d' p ≡ read d p)
        → s' ≡ forget name (set (record info { name = name }) s)
        → Placed d temp path name f info s d' s'

  place_lem :
      (d : Disk) (root : Bytes) (state : SyncState) (temp name : Bytes) (info : FileInfo) (f : File)
      → read d temp ≡ some f
      → let r = place F d root state temp name info in
        Placed d temp (join_path root name) name f info state r.0 r.1
  unfolding place
  place_lem d root state temp name info f there =
      elim (Bool-cases (make_parent_dirs F t root name).1) [
        | inr no_parents ↦
            rw no_parents
              (dropped (λ p ne. ground (arith, posix.read-unlink d' temp p, same_files p, ne)) refl)
        | inl parents ↦ elim (Bool-cases (rename d' temp path).1) [
          | inl moved ↦
              rw (parents, moved)
                (placed
                  (λ p. ground (
                    arith,
                    posix.read-rename d' temp path (record f { mtime_ns = info.mtime_ns }) timed
                        moved p,
                    same_files p,
                  ))
                  refl)
          | inr failed ↦
              rw (parents, failed)
                (dropped
                  (λ p ne. ground (
                    arith,
                    posix.read-unlink (rename d' temp path).0 temp p,
                    posix.read-rename_failed d' temp path failed p,
                    same_files p,
                    ne,
                  ))
                  refl)
        ]
      ]
    where
      t : Disk
      t = utime d temp info.mtime_ns

      path : Bytes
      path = join_path root name

      d' : Disk
      d' = (make_parent_dirs F t root name).0

      same_files :
          (p : Bytes)
          → read d' p ≡ (if same temp p then touched info.mtime_ns (read d p) else read d p)
      same_files p =
          read-make_parent_dirs F posix t root name p ∙ posix.utime-read d temp info.mtime_ns p

      timed : read d' temp ≡ some (record f { mtime_ns = info.mtime_ns })
      timed = same_files temp ∙ rw (same_self temp) (rw there)

  set_aside-read :
      (fuel : ℕ) (stamp : Bytes) (d : Disk) (root : Bytes) (state : SyncState) (name copy : Bytes)
      (info : FileInfo) (g : File)
      → read d (join_path root name) ≡ some g
      → has_edits F d root state name info ≡ true
      → conflict_name F fuel d root name stamp ≡ some copy
      → (rename d (join_path root name) (join_path root copy)).1 ≡ true
      → (p : Bytes)
      → read (set_aside F fuel stamp d root state name info) p ≡ (
          if same (join_path root copy) p
          then some g
          else if same (join_path root name) p
          then none
          else read d p)
  unfolding set_aside move_aside
  set_aside-read fuel stamp d root state name copy info g there edited named moved p =
      rw (edited, named, move_aside)
        (posix.read-rename d (join_path root name) (join_path root copy) g there moved p)

  set_aside-eq :
      (fuel : ℕ) (stamp : Bytes) (d : Disk) (root : Bytes) (state : SyncState) (name : Bytes)
      (info : FileInfo)
      → has_edits F d root state name info ≡ false
      → set_aside F fuel stamp d root state name info ≡ d
  unfolding set_aside
  set_aside-eq fuel stamp d root state name info e = rw e

  -- Two paths of which one holds a file and the other does not.
  differ :
      (d : Disk) (p q : Bytes) {g : File} → read d p ≡ some g → read d q ≡ none → same p q ≡ false
  differ d p q there free = elim (Bool-cases (same p q)) [
    | inl eq ↦ cc (ap (read d) (eq_of_same p q eq))
    | inr ne ↦ ne
  ]

  differ_free :
      (d : Disk) (p q : Bytes) {g : File} → read d p ≡ none → read d q ≡ some g → same p q ≡ false
  differ_free d p q free there = elim (Bool-cases (same p q)) [
    | inl eq ↦ cc (ap (read d) (eq_of_same p q eq))
    | inr ne ↦ ne
  ]

  -- A local file whose content is neither the one that was last synced nor the one that arrives, and whose size or time
  -- is not the one that was last synced, survives a download or a push of the same file into another, temporary, file: if a name for
  -- the conflicted copy is found and the rename to it succeeds, the copy holds the local version
  -- afterwards, whether or not the received file could be put in place.
  pub install-read_copy :
      (fuel : ℕ) (stamp : Bytes) (d : Disk) (root : Bytes) (state : SyncState)
      (temp name copy : Bytes) (info : FileInfo) (f g : File)
      → read d temp ≡ some f
      → read d (join_path root name) ≡ some g
      → same (join_path root name) temp ≡ false
      → version (some info) ≢ content_version g
      → Unsynced (get name state) g
      → conflict_name F fuel d root name stamp ≡ some copy
      → (rename d (join_path root name) (join_path root copy)).1 ≡ true
      → read (install F fuel stamp d root state temp name info).0 (join_path root copy) ≡ some g
  unfolding install
  install-read_copy fuel stamp d root state temp name copy info f g temp_there there apart other
        unsynced named moved =
      kept (
        place_lem aside root state temp name info f
          (aside_read temp ∙ rw (copy_temp) (rw apart temp_there)))
    where
      edited : has_edits F d root state name info ≡ true
      edited = has_edits-Unsynced F d root state name info g there other unsynced

      aside : Disk
      aside = set_aside F fuel stamp d root state name info

      aside_read :
          (p : Bytes)
          → read aside p ≡ (
              if same (join_path root copy) p
              then some g
              else if same (join_path root name) p
              then none
              else read d p)
      aside_read = set_aside-read fuel stamp d root state name copy info g there edited named moved

      free : read d (join_path root copy) ≡ none
      free = conflict_name-read F fuel d root name stamp named

      temp_copy : same temp (join_path root copy) ≡ false
      temp_copy = differ d temp (join_path root copy) temp_there free

      copy_temp : same (join_path root copy) temp ≡ false
      copy_temp = elim (Bool-cases (same (join_path root copy) temp)) [
        | inl eq ↦ cc (ap (read d) (eq_of_same (join_path root copy) temp eq), free)
        | inr ne ↦ ne
      ]

      name_copy : same (join_path root name) (join_path root copy) ≡ false
      name_copy = differ d (join_path root name) (join_path root copy) there free

      here : read aside (join_path root copy) ≡ some g
      here = aside_read (join_path root copy) ∙ rw (same_self (join_path root copy))

      kept :
          {d' : Disk} {s' : SyncState}
          → Placed aside temp (join_path root name) name f info state d' s'
          → read d' (join_path root copy) ≡ some g
      kept (placed files s) = files (join_path root copy) ∙ rw name_copy (rw temp_copy here)
      kept (dropped files s) = files (join_path root copy) temp_copy ∙ here

  -- With no unsynced edit, an install touches no file but the one it installs and the temporary one.
  pub install-read_other :
      (fuel : ℕ) (stamp : Bytes) (d : Disk) (root : Bytes) (state : SyncState) (temp name : Bytes)
      (info : FileInfo) (f : File) (p : Bytes)
      → read d temp ≡ some f
      → has_edits F d root state name info ≡ false
      → same (join_path root name) p ≡ false
      → same temp p ≡ false
      → read (install F fuel stamp d root state temp name info).0 p ≡ read d p
  unfolding install
  install-read_other fuel stamp d root state temp name info f p there clean not_name not_temp =
      rw (set_aside-eq fuel stamp d root state name info clean)
        (other (place_lem d root state temp name info f there))
    where
      other :
          {d' : Disk} {s' : SyncState}
          → Placed d temp (join_path root name) name f info state d' s'
          → read d' p ≡ read d p
      other (placed files s) = files p ∙ rw not_name (rw not_temp)
      other (dropped files s) = files p not_temp

  local_file-read :
      (d : Disk) (root : Bytes) (state : SyncState) (name : Bytes) (info : FileInfo)
      → has_edits F d root state name info ≡ true
      → (g : File) × (read d (join_path root name) ≡ some g)
  unfolding has_edits local_file stat_file
  local_file-read d root state name info h = elim (Option-cases (read d (join_path root name))) [
    | inl e ↦ cc (rw (e, has_edits, local_file, stat_file) at h)
    | inr (g, e) ↦ (g, e)
  ]

  -- Setting a file aside touches no other file.
  pub set_aside-read_other :
      (fuel : ℕ) (stamp : Bytes) (d : Disk) (root : Bytes) (state : SyncState) (name : Bytes)
      (info : FileInfo) (p : Bytes) (x : File)
      → read d p ≡ some x
      → same (join_path root name) p ≡ false
      → read (set_aside F fuel stamp d root state name info) p ≡ some x
  unfolding set_aside move_aside
  set_aside-read_other fuel stamp d root state name info p x there apart =
      elim (Bool-cases (has_edits F d root state name info)) [
        | inr clean ↦ rw clean there
        | inl edited ↦ elim (Option-cases (conflict_name F fuel d root name stamp)) [
          | inl e ↦ rw (edited, e, move_aside) there
          | inr (copy, e) ↦
              elim (Bool-cases (rename d (join_path root name) (join_path root copy)).1) [
                | inr failed ↦
                    rw (edited, e, move_aside)
                      (posix.read-rename_failed d (join_path root name) (join_path root copy) failed
                          p
                        ∙ there)
                | inl moved ↦
                    let (g, source) = local_file-read d root state name info edited in
                    rw (edited, e, move_aside)
                      (posix.read-rename d (join_path root name) (join_path root copy) g source
                          moved p
                        ∙ rw
                            (differ_free d (join_path root copy) p
                              (conflict_name-read F fuel d root name stamp e) there)
                            (rw apart there))
              ]
        ]
      ]
