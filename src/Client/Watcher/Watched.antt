-- ===== src/Client/Watcher/Watched.antt =====
-- Which changes the watcher hears of.
use sis_op.Base.{
  ℕ, Bool, true, false, ◌&&◌, ◌≡◌, refl, ◌∙◌, sym, ap, subst, ◌⊎◌, Option, some, [], ◌∷◌, length,
  ◌==◌, Bool-cases, inl, inr, arith,
}
use sis_op.Base.Keys.{Bytes, same, same_self, eq_of_same, nat_key}
use sis_op.Base.Dict.{Dict, lookup, insert, lookup-insert}
use sis_op.Files.Names.{is_valid_file_name, is_valid_path}
use sis_op.Client.Watcher.{
  Folder, nothing, file, folder, child_path, watch_dir, watch_entries, watch_tree, start,
  InotifyEvent, watching, handle_event, handle_path, handle_folder, Watcher,
}

-- The folders below `dir` whose names and paths are valid all the way.
pub data Below : Bytes → Folder → Bytes → Type 0 where
  direct :
      {dir name : Bytes} {content rest : Folder}
      → is_valid_file_name name ≡ true
      → is_valid_path (child_path dir name) ≡ true
      → Below dir (folder name content rest) (child_path dir name)
  inside :
      {dir name p : Bytes} {content rest : Folder}
      → is_valid_file_name name ≡ true
      → is_valid_path (child_path dir name) ≡ true
      → Below (child_path dir name) content p
      → Below dir (folder name content rest) p
  beside :
      {dir name p : Bytes} {content rest : Folder}
      → Below dir rest p
      → Below dir (folder name content rest) p
  behind : {dir name p : Bytes} {rest : Folder} → Below dir rest p → Below dir (file name rest) p

and_false : (b : Bool) → (b && false) ≡ false
and_false true = refl
and_false false = refl

valid-full : (p : Bytes) → is_valid_path p ≡ true → (length p == 0) ≡ false
unfolding is_valid_path
valid-full [] valid = cc valid
valid-full (c ∷ p) valid = ground arith

-- `wd_of` gives different folders different descriptors.
module _ (wd_of : Bytes → ℕ) (distinct : (p q : Bytes) → wd_of p ≡ wd_of q → p ≡ q) where
  abbrev add : Bytes → Option ℕ
  add p = some (wd_of p)

  insert-kept :
      (p q : Bytes) (dirs : Dict ℕ Bytes)
      → lookup (wd_of p) dirs ≡ some p
      → lookup (wd_of p) (insert (wd_of q) q dirs) ≡ some p
  insert-kept p q dirs h = elim (Bool-cases (same (wd_of q) (wd_of p))) [
    | inl e ↦
        lookup-insert (wd_of q) (wd_of p) q dirs
        ∙ rw e (ap some (distinct q p (eq_of_same (wd_of q) (wd_of p) e)))
    | inr e ↦ lookup-insert (wd_of q) (wd_of p) q dirs ∙ rw e h
  ]

  watch_entries-kept :
      (dir : Bytes) (f : Folder) (p : Bytes) (dirs : Dict ℕ Bytes)
      → lookup (wd_of p) dirs ≡ some p
      → lookup (wd_of p) (watch_entries add dir f dirs) ≡ some p
  unfolding watch_entries watch_dir
  watch_entries-kept dir nothing p dirs h = h
  watch_entries-kept dir (file name rest) p dirs h = watch_entries-kept dir rest p dirs h
  watch_entries-kept dir (folder name content rest) p dirs h =
      let child = child_path dir name in
      watch_entries-kept dir rest p _
        (elim (Bool-cases (is_valid_file_name name && is_valid_path child)) [
          | inr bad ↦ rw bad h
          | inl good ↦ rw good (watch_entries-kept child content p _ (insert-kept p child dirs h))
        ])

  watch_entries-Below :
      (dir : Bytes) (f : Folder) (p : Bytes) (dirs : Dict ℕ Bytes)
      → Below dir f p
      → lookup (wd_of p) (watch_entries add dir f dirs) ≡ some p
  unfolding watch_entries watch_dir
  watch_entries-Below dir nothing p dirs b = elim b [ ]
  watch_entries-Below dir (file name rest) p dirs (behind b) = watch_entries-Below dir rest p dirs b
  watch_entries-Below dir (folder name content rest) p dirs (beside b) =
      watch_entries-Below dir rest p _ b
  watch_entries-Below dir (folder name content rest) p dirs (inside good valid b) =
      let child = child_path dir name in
      watch_entries-kept dir rest p _ (rw (good, valid) (watch_entries-Below child content p _ b))
  watch_entries-Below dir (folder name content rest) _ dirs (direct good valid) =
      let child = child_path dir name in
      watch_entries-kept dir rest child _ (
        rw (good, valid)
          (watch_entries-kept child content child _ (
            lookup-insert (wd_of child) (wd_of child) child dirs
            ∙ rw (same_self (wd_of child)) refl)))

  -- The folder itself, or one below it.
  abbrev pub Within : Bytes → Folder → Bytes → Type 0
  Within dir f p = (p ≡ dir) ⊎ Below dir f p

  -- The watcher has the right path for the folder's descriptor.
  abbrev pub Tracks : Watcher → Bytes → Type 0
  Tracks w p = lookup (wd_of p) w.dirs ≡ some p

  insert-own :
      (p : Bytes) (dirs : Dict ℕ Bytes) → lookup (wd_of p) (insert (wd_of p) p dirs) ≡ some p
  insert-own p dirs = lookup-insert (wd_of p) (wd_of p) p dirs ∙ rw (same_self (wd_of p)) refl

  pub start-Tracks : (f : Folder) (p : Bytes) → Within [] f p → Tracks (start add (wd_of []) f) p
  unfolding start watch_tree
  start-Tracks f p (inl e) =
      subst (λ q. Tracks (start add (wd_of []) f) q) (sym e)
        (watch_entries-kept [] f [] _ (insert-own [] []))
  start-Tracks f p (inr b) = watch_entries-Below [] f p _ b

  watch_tree-Tracks :
      (dir : Bytes) (f : Folder) (p : Bytes) (dirs : Dict ℕ Bytes)
      → (length dir == 0) ≡ false
      → Within dir f p
      → lookup (wd_of p) (watch_tree add dir f dirs) ≡ some p
  unfolding watch_tree watch_dir
  watch_tree-Tracks dir f p dirs full (inl e) = rw full (
      subst (λ q. lookup (wd_of q) (watch_entries add dir f (insert (wd_of dir) dir dirs)) ≡ some q)
        (sym e) (watch_entries-kept dir f dir _ (insert-own dir dirs)))
  watch_tree-Tracks dir f p dirs full (inr b) = rw full (watch_entries-Below dir f p _ b)

  -- A file that was written and closed.
  abbrev pub written : Bytes → Bytes → InotifyEvent
  written dir name = record {
    overflow = false;
    delete_self = false;
    move_self = false;
    ignored = false;
    is_dir = false;
    is_create = false;
    moved_to = false;
    delete = false;
    moved_from = false;
    wd = wd_of dir;
    name = name;
  }

  -- A folder that was moved in.
  abbrev pub moved_in : Bytes → Bytes → InotifyEvent
  moved_in dir name = record (written dir name) { is_dir = true; moved_to = true }

  written-heard :
      (w : Watcher) (dir name : Bytes) (content : Folder)
      → Tracks w dir
      → (length name == 0) ≡ false
      → is_valid_path (child_path dir name) ≡ true
      → handle_event add (written dir name) content w ≡ watching w (child_path dir name ∷ [])
  unfolding handle_event handle_path
  written-heard w dir name content tracks named valid =
      rw (and_false (wd_of dir == w.root_wd), tracks, named, valid) refl

  -- After the start, with a descriptor of its own for each folder: a file that is written, under a valid
  -- path, in the root or in any folder that has a valid path below it, is reported with its path.
  pub start-heard :
      (f content : Folder) (dir name : Bytes)
      → Within [] f dir
      → (length name == 0) ≡ false
      → is_valid_path (child_path dir name) ≡ true
      → let w = start add (wd_of []) f in
        handle_event add (written dir name) content w ≡ watching w (child_path dir name ∷ [])
  start-heard f content dir name within named valid =
      written-heard _ dir name content (start-Tracks f dir within) named valid

  moved_in-watching :
      (w : Watcher) (dir name : Bytes) (content : Folder)
      → Tracks w dir
      → (length name == 0) ≡ false
      → is_valid_path (child_path dir name) ≡ true
      → handle_event add (moved_in dir name) content w
        ≡ watching
            (record w { dirs = watch_tree add (child_path dir name) content w.dirs })
            ([] ∷ [])
  unfolding handle_event handle_path handle_folder
  moved_in-watching w dir name content tracks named valid =
      rw (and_false (wd_of dir == w.root_wd), tracks, named, valid) refl

  -- With a descriptor of its own for each folder, and one for `dir` that the watcher has the path of: a folder
  -- that is moved into it under a valid path has everything scanned, and from then on a file that is written,
  -- under a valid path, in that folder or in one that has a valid path below it, is reported with its path.
  pub moved_in-heard :
      (w : Watcher) (dir name : Bytes) (content other : Folder) (sub file_name : Bytes)
      → Tracks w dir
      → (length name == 0) ≡ false
      → is_valid_path (child_path dir name) ≡ true
      → Within (child_path dir name) content sub
      → (length file_name == 0) ≡ false
      → is_valid_path (child_path sub file_name) ≡ true
      → (w' : Watcher) × (handle_event add (moved_in dir name) content w ≡ watching w' ([] ∷ []))
        × (handle_event add (written sub file_name) other w'
            ≡ watching w' (child_path sub file_name ∷ []))
  moved_in-heard w dir name content other sub file_name tracks named valid within file_named
        file_valid =
      (
        _,
        moved_in-watching w dir name content tracks named valid,
        written-heard _ sub file_name other
            (watch_tree-Tracks (child_path dir name) content sub w.dirs (valid-full _ valid) within)
            file_named file_valid,
      )
