-- ===== src/Files/Names.antt =====
-- Names and paths of common/files.cpp. `path.find('/', start)` and `substr` cut a path at its
-- slashes; `rfind('/')` cuts it at the last one.
pub mod Valid
pub mod Parts
use sis_op.Base.{
  ℕ, suc, ◌+◌, Bool, true, false, not, ◌&&◌, ◌||◌, Option, none, some, List, [], ◌∷◌, ◌++◌, length,
  ltb, leb, ◌==◌, if◌then◌else◌, take,
}
use sis_op.Base.Keys.{Bytes, same, bytes_key}
use sis_op.Protocol.Names.{text}

-- The string comparison of the source.
infix 50 ◌is◌
abbrev pub ◌is◌ : Bytes → Bytes → Bool
a is b = same a b

abbrev pub max_name_length : ℕ
max_name_length = 255

abbrev pub max_path_length : ℕ
max_path_length = 1024

abbrev pub max_path_depth : ℕ
max_path_depth = 32

abbrev pub max_username_length : ℕ
max_username_length = 32

abbrev pub reserved_prefix : Bytes
reserved_prefix = text ".sisop"

abbrev pub slash : ℕ
slash = b'/'

-- The loop over a string that looks for a character of which `ok` is false.
unfoldable pub all_chars : (ℕ → Bool) → Bytes → Bool
all_chars ok [] = true
all_chars ok (c ∷ cs) = ok c && all_chars ok cs

abbrev pub is_name_char : ℕ → Bool
is_name_char c = not (c == slash || ltb c 0x20 || c == 0x7F)

unfoldable pub is_valid_file_name : Bytes → Bool
is_valid_file_name name =
    if length name == 0
      || ltb max_name_length (length name)
      || name is text "."
      || name is text ".."
    then false
    else if take (length reserved_prefix) name is reserved_prefix
    then false
    else all_chars is_name_char name

-- Puts a character in front of the first component.
abbrev pub push_char : ℕ → List Bytes → List Bytes
push_char c [] = (c ∷ []) ∷ []
push_char c (x ∷ xs) = (c ∷ x) ∷ xs

-- The components that the loop of is_valid_path cuts out, one after another.
unfoldable pub components : Bytes → List Bytes
components [] = [] ∷ []
components (c ∷ cs) = if c == slash then [] ∷ components cs else push_char c (components cs)

-- The loop itself, from the depth reached so far. Each component is checked before the next is cut.
unfoldable pub check_components : ℕ → List Bytes → Bool
check_components depth [] = true
check_components depth (name ∷ rest) =
    if not (is_valid_file_name name) || ltb max_path_depth (suc depth)
    then false
    else check_components (suc depth) rest

unfoldable pub is_valid_path : Bytes → Bool
is_valid_path path =
    if length path == 0 || ltb max_path_length (length path)
    then false
    else check_components 0 (components path)

abbrev pub is_username_char : ℕ → Bool
is_username_char c =
    (leb b'a' c && leb c b'z')
    || (leb b'A' c && leb c b'Z')
    || (leb b'0' c && leb c b'9')
    || c == b'_'
    || c == b'-'

unfoldable pub is_valid_username : Bytes → Bool
is_valid_username name =
    if length name == 0 || ltb max_username_length (length name)
    then false
    else all_chars is_username_char name

-- dir.back() == '/'
abbrev pub ends_in_slash : Bytes → Bool
ends_in_slash [] = false
ends_in_slash (c ∷ []) = c == slash
ends_in_slash (c ∷ d ∷ cs) = ends_in_slash (d ∷ cs)

unfoldable pub join_path : Bytes → Bytes → Bytes
join_path dir name =
    if length dir == 0 || ends_in_slash dir then dir ++ name else dir ++ (slash ∷ name)

-- rfind('/'): what stands before and after the last slash.
unfoldable pub cut_last : Bytes → Option (Bytes × Bytes)
cut_last [] = none
cut_last (c ∷ cs) = elim (cut_last cs) [
  | some (before, after) ↦ some (c ∷ before, after)
  | none ↦ if c == slash then some ([], cs) else none
]

unfoldable pub parent_path : Bytes → Bytes
parent_path path = elim (cut_last path) [ none ↦ [] | some (before, after) ↦ before ]

unfoldable pub base_name : Bytes → Bytes
base_name path = elim (cut_last path) [ none ↦ path | some (before, after) ↦ after ]
