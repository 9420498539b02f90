-- ===== src/Files/Names/Valid.antt =====
-- Which paths are accepted, in terms of their components.
use sis_op.Base.{
  ℕ, suc, ◌+◌, ◌≤◌, ◌<◌, ◌≡◌, ◌≢◌, ◌↔◌, refl, ap, sym, ◌∙◌, subst, true, List, [], ◌∷◌, ◌++◌,
  length, ◌==◌, if◌then◌else◌, take, All, arith,
}
use sis_op.Base.Keys.{Bytes, same_of_eq, bytes_key}
use sis_op.Protocol.Names.{text}
use sis_op.Files.Names.{
  max_path_length, max_path_depth, slash, all_chars, is_name_char, is_valid_file_name, components,
  check_components, is_valid_path, push_char, reserved_prefix,
}

-- The names joined by single slashes.
unfoldable pub joined : List Bytes → Bytes
joined [] = []
joined (name ∷ []) = name
joined (name ∷ next ∷ rest) = name ++ (slash ∷ joined (next ∷ rest))

abbrev pub IsName : Bytes → Type 0
IsName name = is_valid_file_name name ≡ true

-- Some names, at most 32, joined to at most 1024 bytes.
pub record IsPath (path : Bytes) : Type 0 where
  pub names : List Bytes
  pub valid : All IsName names
  pub some_name : 0 < length names
  pub depth : length names ≤ max_path_depth
  pub size : length path ≤ max_path_length
  pub whole : joined names ≡ path

components-ne : (path : Bytes) → 0 < length (components path)
unfolding components
components-ne [] = omega arith
components-ne (c ∷ cs) =
    elim (components cs) as (λ x. 0 < length (if c == slash then [] ∷ x else push_char c x)) [
      | [] ↦ ground arith
      | x ∷ xs ↦ ground arith
    ]

joined-push_char :
    (c : ℕ) (names : List Bytes) → 0 < length names → joined (push_char c names) ≡ c ∷ joined names
unfolding joined
joined-push_char c [] h = absurd (omega arith)
joined-push_char c (x ∷ []) h = refl
joined-push_char c (x ∷ y ∷ r) h = refl

joined-cons : (names : List Bytes) → 0 < length names → joined ([] ∷ names) ≡ slash ∷ joined names
unfolding joined
joined-cons [] h = absurd (omega arith)
joined-cons (x ∷ r) h = refl

joined-components : (path : Bytes) → joined (components path) ≡ path
unfolding components
joined-components [] = unfold joined in refl
joined-components (c ∷ cs) = ground (
  arith,
  joined-push_char c (components cs) (components-ne cs),
  joined-cons (components cs) (components-ne cs),
  joined-components cs,
)

-- A string with no slash.
abbrev NoSlash : Bytes → Type 0
NoSlash = All (λ c. c ≢ slash)

all_chars-NoSlash : (name : Bytes) → all_chars is_name_char name ≡ true → NoSlash name
unfolding all_chars
all_chars-NoSlash [] h = tt
all_chars-NoSlash (c ∷ cs) h = (ground arith, all_chars-NoSlash cs (ground arith))

name-NoSlash : (name : Bytes) → IsName name → NoSlash name
unfolding is_valid_file_name
name-NoSlash name h = all_chars-NoSlash name (ground arith)

components-name : (name : Bytes) → NoSlash name → components name ≡ name ∷ []
unfolding components
components-name [] h = refl
components-name (c ∷ cs) h = ground (arith, h.0, components-name cs h.1)

components-append :
    (name rest : Bytes)
    → NoSlash name
    → components (name ++ (slash ∷ rest)) ≡ name ∷ components rest
unfolding components
components-append [] rest h = refl
components-append (c ∷ cs) rest h = ground (arith, h.0, components-append cs rest h.1)

components-joined :
    (names : List Bytes) → 0 < length names → All IsName names → components (joined names) ≡ names
unfolding joined
components-joined [] h v = absurd (omega arith)
components-joined (x ∷ []) h v = components-name x (name-NoSlash x v.0)
components-joined (x ∷ y ∷ r) h v =
    components-append x (joined (y ∷ r)) (name-NoSlash x v.0)
    ∙ ap (◌∷◌ x) (components-joined (y ∷ r) (omega arith) v.1)

check_components_sound :
    (depth : ℕ) (names : List Bytes)
    → check_components depth names ≡ true
    → (depth ≤ max_path_depth)
    → All IsName names × (depth + length names ≤ max_path_depth)
unfolding check_components
check_components_sound depth [] h d = (tt, omega arith)
check_components_sound depth (x ∷ r) h d = ground (arith, check_components_sound (suc depth) r)

check_components_complete :
    (depth : ℕ) (names : List Bytes)
    → All IsName names
    → depth + length names ≤ max_path_depth
    → check_components depth names ≡ true
unfolding check_components
check_components_complete depth [] v h = refl
check_components_complete depth (x ∷ r) v h =
    ground (arith, check_components_complete (suc depth) r v.1 (omega arith))

pub is_valid_path_sound : (path : Bytes) → is_valid_path path ≡ true → IsPath path
unfolding is_valid_path
is_valid_path_sound path h = record {
  names = components path;
  valid = checked.0;
  some_name = components-ne path;
  depth = omega (arith, checked.1);
  size = ground arith;
  whole = joined-components path;
}
  where
    checked : All IsName (components path) × (0 + length (components path) ≤ max_path_depth)
    checked = check_components_sound 0 (components path) (ground arith) (omega arith)

joined-pos : (names : List Bytes) → 0 < length names → All IsName names → 0 < length (joined names)
unfolding joined is_valid_file_name
joined-pos [] h v = absurd (omega arith)
joined-pos (x ∷ []) h v = ground arith
joined-pos ([] ∷ y ∷ r) h v = omega arith
joined-pos ((c ∷ x) ∷ y ∷ r) h v = omega arith

pub is_valid_path_complete : (path : Bytes) → IsPath path → is_valid_path path ≡ true
unfolding is_valid_path
is_valid_path_complete path p = rw (← p.whole) (
    ground (
      arith,
      joined-pos p.names p.some_name p.valid,
      components-joined p.names p.some_name p.valid,
      check_components_complete 0 p.names p.valid (omega arith),
      subst (λ x. length x ≤ max_path_length) (sym p.whole) p.size,
    ))

-- A path is accepted exactly when it is made of one to 32 valid file names, joined by single
-- slashes to at most 1024 bytes.
pub is_valid_path_iff : (path : Bytes) → (is_valid_path path ≡ true) ↔ IsPath path
is_valid_path_iff path = (is_valid_path_sound path, is_valid_path_complete path)

all_chars-safe :
    (name : Bytes)
    → all_chars is_name_char name ≡ true
    → All (λ c. (c ≢ slash) × (0x20 ≤ c) × (c ≢ 0x7F)) name
unfolding all_chars
all_chars-safe [] h = tt
all_chars-safe (c ∷ cs) h = (ground arith, all_chars-safe cs (ground arith))

-- A valid name is neither empty nor "." nor "..", does not begin with the reserved prefix, and
-- holds no slash and no control character.
pub is_valid_file_name_safe :
    (name : Bytes)
    → is_valid_file_name name ≡ true
    → (name ≢ [])
      × (name ≢ text ".")
      × (name ≢ text "..")
      × (take 6 name ≢ reserved_prefix)
      × All (λ c. (c ≢ slash) × (0x20 ≤ c) × (c ≢ 0x7F)) name
unfolding is_valid_file_name
is_valid_file_name_safe name h = (
  (λ e. ground arith),
  (λ e. ground (arith, same_of_eq name (text ".") e)),
  (λ e. ground (arith, same_of_eq name (text "..") e)),
  (λ e. ground (arith, same_of_eq (take 6 name) reserved_prefix e)),
  all_chars-safe name (ground arith),
)
