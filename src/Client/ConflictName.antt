-- ===== src/Client/ConflictName.antt =====
-- Client::conflict_name. The time stamp that strftime writes is an argument.
use sis_op.Base.{
  ℕ, zero, suc, ◌+◌, ◌-◌, ◌≤◌, ◌<◌, ◌≡◌, ◌≢◌, ap, ◌∙◌, min, Bool, true, false, Option, none, some,
  [], ◌∷◌, ◌++◌, length, take, drop, ltb, ◌==◌, if◌then◌else◌, arith, eq_of_some, inl, inr,
  length-append, length-take-le, length-take-le_length, Bool-cases, subst,
}
use sis_op.Base.Keys.{Bytes}
use sis_op.Protocol.Decimal.{to_string}
use sis_op.Protocol.Names.{text}
use sis_op.Files.Names.{join_path, parent_path, base_name, max_name_length, slash}
use sis_op.Files.System.{FileSystem, stat_file}
use sis_op.Server.Sessions.{is_none}

-- rfind('.'): the number of characters before the last dot.
unfoldable pub last_dot : Bytes → Option ℕ
last_dot [] = none
last_dot (c ∷ cs) = elim (last_dot cs) [
  | some n ↦ some (suc n)
  | none ↦ if c == b'.' then some 0 else none
]

-- Where the extension begins: a dot at the very front starts none.
unfoldable pub extension_at : Bytes → ℕ
extension_at file = elim (last_dot file) [
  | none ↦ length file
  | some n ↦ if n == 0 then length file else n
]

unfoldable pub tag : Bytes → ℕ → Bytes
tag stamp attempt =
    text " (conflicted copy "
    ++ (stamp ++ ((if ltb 1 attempt then text " " ++ to_string attempt else []) ++ text ")"))

-- The name of the copy in its folder. No tag is near 200 bytes long, so the room does not wrap.
unfoldable pub copy_name : Bytes → Bytes → ℕ → Bytes
copy_name file stamp attempt =
    let stem = take (extension_at file) file in
    let extension = drop (extension_at file) file in
    let room = max_name_length - length (tag stamp attempt) - min (length extension) 32 in
    take room stem ++ (tag stamp attempt ++ take 32 extension)

unfoldable pub candidate : Bytes → Bytes → ℕ → Bytes
candidate name stamp attempt =
    let copy = copy_name (base_name name) stamp attempt in
    if length (parent_path name) == 0 then copy else parent_path name ++ (slash ∷ copy)

module _ (F : FileSystem) where
  open F use {Disk, read}

  -- The loop over the attempts, on fuel.
  unfoldable pub find_free : ℕ → Disk → Bytes → Bytes → Bytes → ℕ → Option Bytes
  find_free zero d root name stamp attempt = none
  find_free (suc fuel) d root name stamp attempt =
      let rest = find_free fuel d root name stamp (suc attempt) in
      if is_none (stat_file F d (join_path root (candidate name stamp attempt)) [] false)
      then some (candidate name stamp attempt)
      else rest

  unfoldable pub conflict_name : ℕ → Disk → Bytes → Bytes → Bytes → Option Bytes
  conflict_name fuel d root name stamp = find_free fuel d root name stamp 1

  stat_file-none :
      (d : Disk) (path name : Bytes) (with_hash : Bool)
      → is_none (stat_file F d path name with_hash) ≡ true
      → read d path ≡ none
  unfolding stat_file is_none
  stat_file-none d path name with_hash h = ground arith

  read-none :
      (d : Disk) (path name : Bytes) (with_hash : Bool)
      → read d path ≡ none
      → is_none (stat_file F d path name with_hash) ≡ true
  unfolding stat_file is_none
  read-none d path name with_hash h = ground arith

  find_free-read :
      (fuel : ℕ) (d : Disk) (root name stamp : Bytes) (attempt : ℕ) {copy : Bytes}
      → find_free fuel d root name stamp attempt ≡ some copy
      → read d (join_path root copy) ≡ none
  unfolding find_free
  find_free-read zero d root name stamp attempt h = cc
  find_free-read (suc fuel) d root name stamp attempt {copy} h =
      elim (Bool-cases
        (is_none (stat_file F d (join_path root (candidate name stamp attempt)) [] false))) [
          | inl free ↦
              subst (λ c. read d (join_path root c) ≡ none) (eq_of_some _ copy (rw free at h))
                (stat_file-none d (join_path root (candidate name stamp attempt)) [] false free)
          | inr taken ↦ find_free-read fuel d root name stamp (suc attempt) (rw taken at h)
        ]

  -- The name of the first attempt from this one on that no file has.
  abbrev pub FirstFree : Disk → Bytes → Bytes → Bytes → ℕ → Bytes → Type 0
  FirstFree d root name stamp attempt copy =
      (n : ℕ) × (copy ≡ candidate name stamp (attempt + n))
      × (read d (join_path root copy) ≡ none)
      × ((k : ℕ) → k < n → read d (join_path root (candidate name stamp (attempt + k))) ≢ none)

  FirstFree-now :
      (d : Disk) (root name stamp : Bytes) (attempt : ℕ)
      → read d (join_path root (candidate name stamp attempt)) ≡ none
      → FirstFree d root name stamp attempt (candidate name stamp attempt)
  FirstFree-now d root name stamp attempt free =
      (0, ap (candidate name stamp) (omega arith), free, λ k lt. absurd (omega (arith, lt)))

  FirstFree-later :
      (d : Disk) (root name stamp : Bytes) (attempt : ℕ) (copy : Bytes)
      → read d (join_path root (candidate name stamp attempt)) ≢ none
      → FirstFree d root name stamp (suc attempt) copy
      → FirstFree d root name stamp attempt copy
  FirstFree-later d root name stamp attempt copy taken (n, e, free, before) =
      (suc n, e ∙ ap (candidate name stamp) (omega arith), free, earlier)
    where
      earlier :
          (k : ℕ) → k < suc n → read d (join_path root (candidate name stamp (attempt + k))) ≢ none
      earlier zero lt =
          subst (λ a. read d (join_path root (candidate name stamp a)) ≢ none) (omega arith) taken
      earlier (suc j) lt =
          subst (λ a. read d (join_path root (candidate name stamp a)) ≢ none) (omega arith)
            (before j (omega (arith, lt)))

  -- An attempt whose name is free is found, if the fuel reaches it.
  find_free_total :
      (fuel : ℕ) (d : Disk) (root name stamp : Bytes) (attempt more : ℕ)
      → read d (join_path root (candidate name stamp (attempt + more))) ≡ none
      → more < fuel
      → (copy : Bytes) × (find_free fuel d root name stamp attempt ≡ some copy)
        × FirstFree d root name stamp attempt copy
  unfolding find_free
  find_free_total zero d root name stamp attempt more h m = absurd (omega arith)
  find_free_total (suc fuel) d root name stamp attempt zero h m =
      let free =
        read-none d (join_path root (candidate name stamp attempt)) [] false
          (subst (λ a. read d (join_path root (candidate name stamp a)) ≡ none) (omega arith) h) in
      (
        candidate name stamp attempt,
        rw free,
        FirstFree-now d root name stamp attempt
            (stat_file-none d (join_path root (candidate name stamp attempt)) [] false free),
      )
  find_free_total (suc fuel) d root name stamp attempt (suc more) h m =
      elim (Bool-cases
        (is_none (stat_file F d (join_path root (candidate name stamp attempt)) [] false))) [
          | inl free ↦ (
            candidate name stamp attempt,
            rw free,
            FirstFree-now d root name stamp attempt
                (stat_file-none d (join_path root (candidate name stamp attempt)) [] false free),
          )
          | inr taken ↦
              let (copy, found, first) =
                find_free_total fuel d root name stamp (suc attempt) more
                  (subst (λ a. read d (join_path root (candidate name stamp a)) ≡ none)
                    (omega arith) h)
                  (omega arith) in
              (
                copy,
                rw taken found,
                FirstFree-later d root name stamp attempt copy
                    (λ gone.
                      cc
                        (read-none d (join_path root (candidate name stamp attempt)) [] false gone))
                    first,
              )
        ]

  -- A conflicted copy never gets the name of a file that is there.
  pub conflict_name-read :
      (fuel : ℕ) (d : Disk) (root name stamp : Bytes) {copy : Bytes}
      → conflict_name fuel d root name stamp ≡ some copy
      → read d (join_path root copy) ≡ none
  unfolding conflict_name
  conflict_name-read fuel d root name stamp h = find_free-read fuel d root name stamp 1 h

  -- If the name of some attempt below the fuel is free, the name found is the first that no file has: all
  -- attempts before it are taken.
  pub conflict_name_total :
      (fuel : ℕ) (d : Disk) (root name stamp : Bytes) (more : ℕ)
      → read d (join_path root (candidate name stamp (1 + more))) ≡ none
      → more < fuel
      → (copy : Bytes) × (conflict_name fuel d root name stamp ≡ some copy)
        × FirstFree d root name stamp 1 copy
  unfolding conflict_name
  conflict_name_total fuel d root name stamp more h m =
      find_free_total fuel d root name stamp 1 more h m

-- The name of a copy has at most 255 bytes, if its tag and 32 bytes of extension have.
pub length-copy_name :
    (file stamp : Bytes) (attempt : ℕ)
    → length (tag stamp attempt) + 32 ≤ max_name_length
    → length (copy_name file stamp attempt) ≤ max_name_length
unfolding copy_name
length-copy_name file stamp attempt h =
    let stem = take (extension_at file) file in
    let extension = drop (extension_at file) file in
    let room = max_name_length - length (tag stamp attempt) - min (length extension) 32 in
    omega (
      arith,
      length-append (take room stem) (tag stamp attempt ++ take 32 extension),
      length-append (tag stamp attempt) (take 32 extension),
      length-take-le room stem,
      length-take-le 32 extension,
      length-take-le_length 32 extension,
    )
