-- ===== src/Client/Install/Unsynced.antt =====
-- Local files that install of client/client.cpp tells apart from what was synced.
use sis_op.Base.{
  ℕ, ◌≡◌, refl, true, false, none, some, Option, ◌≢◌, subst, sym, length, ◌==◌, arith, Bool-cases,
  Option-cases, inl, inr,
}
use sis_op.Base.Keys.{Bytes, bytes_key}
use sis_op.Files.Info.{FileInfo, Version, version}
use sis_op.Files.Hash.{fnv}
use sis_op.Base.Int.{int_eq, eq_of_int_eq}
use sis_op.Client.Decide.{same_content}
use sis_op.Files.Names.{join_path}
use sis_op.Files.System.{File, FileSystem, stat_file, hash_file}
use sis_op.Client.SyncState.{SyncState, get}
use sis_op.Client.Install.{has_edits, local_file, fill_hash, saved_hash, is_synced}

-- The hash and the size of a content.
abbrev pub content_version : File → Option Version
content_version g = some (record { hash = fnv g.content; size = length g.content })

-- The file is not what was last synced, and its size or its time shows it.
abbrev pub Unsynced : Option FileInfo → File → Type 0
Unsynced none g = Unit {0}
Unsynced (some base) g =
    (version (some base) ≢ content_version g)
    × (base.size ≡ length g.content → base.mtime_ns ≢ g.mtime_ns)

abbrev described : Bytes → File → ℕ → FileInfo
described name g hash = record {
  name = name;
  size = length g.content;
  mtime_ns = g.mtime_ns;
  hash = hash;
}

same_content-version :
    (a b : FileInfo) → same_content a b ≡ true → version (some a) ≡ version (some b)
unfolding same_content
same_content-version a b h = ground (arith, h)

-- The saved hash is not reused.
saved_hash-Unsynced :
    (state : SyncState) (name : Bytes) (g : File)
    → Unsynced (get name state) g
    → saved_hash state (described name g 0) ≡ none
unfolding saved_hash
saved_hash-Unsynced state name g u = elim (Option-cases (get name state)) [
  | inl e ↦ rw (e, saved_hash) refl
  | inr (base, e) ↦
      let (differs, later) = subst (λ b. Unsynced b g) e u in
      elim (Bool-cases (base.size == length g.content)) [
        | inr n ↦ rw (e, saved_hash) (rw n refl)
        | inl y ↦ elim (Bool-cases (int_eq base.mtime_ns g.mtime_ns)) [
          | inr z ↦ rw (e, saved_hash) (rw (y, z) refl)
          | inl z ↦ absurd (later (ground (arith, y)) (eq_of_int_eq _ _ z))
        ]
      ]
]

is_synced-Unsynced :
    (state : SyncState) (name : Bytes) (g : File)
    → Unsynced (get name state) g
    → is_synced state name (described name g (fnv g.content)) ≡ false
unfolding is_synced
is_synced-Unsynced state name g u = elim (Option-cases (get name state)) [
  | inl e ↦ rw (e, is_synced) refl
  | inr (base, e) ↦
      let (differs, later) = subst (λ b. Unsynced b g) e u in
      elim (Bool-cases (same_content base (described name g (fnv g.content)))) [
        | inl y ↦ absurd (differs (same_content-version _ _ y))
        | inr n ↦ rw (e, is_synced) n
      ]
]

module _ (F : FileSystem) where
  open F use {Disk, read}

  hash_file-content :
      (d : Disk) (path : Bytes) (g : File)
      → read d path ≡ some g
      → hash_file F d path ≡ some (fnv g.content)
  unfolding hash_file stat_file
  hash_file-content d path g there = rw (there, stat_file, hash_file) refl

  local_file-Unsynced :
      (d : Disk) (root : Bytes) (state : SyncState) (name : Bytes) (g : File)
      → read d (join_path root name) ≡ some g
      → Unsynced (get name state) g
      → local_file F d root state name ≡ some (described name g (fnv g.content))
  unfolding local_file fill_hash stat_file
  local_file-Unsynced d root state name g there u =
      rw (there, local_file)
        (rw (saved_hash-Unsynced state name g u, fill_hash)
          (rw (hash_file-content d (join_path root name) g there) refl))

  pub has_edits-Unsynced :
      (d : Disk) (root : Bytes) (state : SyncState) (name : Bytes) (info : FileInfo) (g : File)
      → read d (join_path root name) ≡ some g
      → version (some info) ≢ content_version g
      → Unsynced (get name state) g
      → has_edits F d root state name info ≡ true
  unfolding has_edits
  has_edits-Unsynced d root state name info g there other u =
      elim (Bool-cases (same_content (described name g (fnv g.content)) info)) [
        | inl y ↦ absurd (other (sym (same_content-version _ _ y)))
        | inr n ↦
            rw (local_file-Unsynced d root state name g there u, has_edits)
              (rw (n, is_synced-Unsynced state name g u) refl)
      ]
