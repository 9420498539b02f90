-- ===== src/Server/Accounts.antt =====
-- server/accounts.hpp and server/accounts.cpp: account records and the account files. The key
-- derivation is OpenSSL's: a parameter. A directory of account files is a dictionary from the user
-- to the first line of the file; a write may fail.
pub mod Listed
pub mod Records
use sis_op.Base.{
  ℕ, suc, ◌+◌, ◌-◌, ◌*◌, Bool, true, false, not, ◌&&◌, ◌||◌, Option, none, some, List, [], ◌∷◌,
  ◌++◌, length, ltb, leb, ◌==◌, if◌then◌else◌, and_then,
}
use sis_op.Base.Keys.{Bytes, bytes_key}
use sis_op.Base.Dict.{Dict, lookup, insert, keys}
use sis_op.Protocol.Names.{text}
use sis_op.Files.Names.{◌is◌, all_chars, is_valid_username}
use sis_op.Server.Sessions.{is_none, to_hex}

abbrev pub scheme : Bytes
scheme = text "pbkdf2-sha256"

abbrev pub iterations : ℕ
iterations = 100000

abbrev pub hash_size : ℕ
hash_size = 32

abbrev pub salt_size : ℕ
salt_size = 16

abbrev pub min_password_length : ℕ
min_password_length = 6

abbrev pub max_password_length : ℕ
max_password_length = 256

-- The value of a lower-case hex digit; `none` where the source has -1.
unfoldable pub from_digit : ℕ → Option ℕ
from_digit c =
    if leb b'0' c && leb c b'9'
    then some (c - b'0')
    else if leb b'a' c && leb c b'f'
    then some (c - b'a' + 10)
    else none

unfoldable pub from_hex : Bytes → Option Bytes
from_hex [] = some []
from_hex (h ∷ []) = none
from_hex (h ∷ l ∷ rest) = and_then (from_digit h) (λ high.
    and_then (from_digit l)
      (λ low. and_then (from_hex rest) (λ bytes. some ((high * 16 + low) ∷ bytes))))

abbrev pub push_front : ℕ → List Bytes → List Bytes
push_front c [] = (c ∷ []) ∷ []
push_front c (x ∷ xs) = (c ∷ x) ∷ xs

-- The fields that std::getline takes from the record, one after another: a '$' at the very end
-- starts no further field.
unfoldable pub fields : Bytes → List Bytes
fields [] = []
fields (c ∷ cs) = if c == b'$' then [] ∷ fields cs else push_front c (fields cs)

abbrev pub is_digit : ℕ → Bool
is_digit c = leb b'0' c && leb c b'9'

-- std::stoi of a string of digits.
unfoldable pub decimal : ℕ → Bytes → ℕ
decimal acc [] = acc
decimal acc (c ∷ cs) = decimal (acc * 10 + (c - b'0')) cs

pub record ParsedRecord : Type 0 where
  pub iterations : ℕ
  pub salt : Bytes
  pub hash : Bytes

-- The checks of `parse` once the fields are cut and counted.
unfoldable pub parse_fields : Bytes → Bytes → Bytes → Bytes → Option ParsedRecord
parse_fields name count salt hash =
    if not (name is scheme)
      || length count == 0
      || not (all_chars is_digit count)
      || ltb 9 (length count)
    then none
    else if ltb 0 (decimal 0 count)
    then and_then (from_hex salt) (λ s. and_then (from_hex hash) (λ h.
      if not (length s == 0) && length h == hash_size
      then some (record { iterations = decimal 0 count; salt = s; hash = h })
      else none))
    else none

unfoldable pub parse_list : List Bytes → Option ParsedRecord
parse_list (a ∷ b ∷ c ∷ d ∷ []) = parse_fields a b c d
parse_list _ = none

unfoldable pub parse : Bytes → Option ParsedRecord
parse account = parse_list (fields account)

unfoldable pub is_valid_record : Bytes → Bool
is_valid_record account = not (is_none (parse account))

-- accounts/<user>, by user.
abbrev pub AccountFiles : Type 0
AccountFiles = Dict Bytes Bytes

unfoldable pub get : Bytes → AccountFiles → Option Bytes
get user files = elim (lookup user files) [
  | none ↦ none
  | some account ↦ if is_valid_record account then some account else none
]

-- `written` says whether the file system accepts the write.
unfoldable pub write : Bool → Bytes → Bytes → AccountFiles → AccountFiles × Bool
write written user account files =
    if written then (insert user account files, true) else (files, false)

unfoldable pub create : Bool → Bytes → Bytes → AccountFiles → AccountFiles × Bool
create written user account files =
    if is_none (lookup user files) then write written user account files else (files, false)

unfoldable pub put : Bool → Bytes → Bytes → AccountFiles → AccountFiles × Bool
put = write

-- The accounts of these users, where the file has a record.
unfoldable pub accounts_of : List Bytes → AccountFiles → List (Bytes × Bytes)
accounts_of [] files = []
accounts_of (user ∷ users) files =
    let rest = accounts_of users files in
    if is_valid_username user
    then elim (get user files) [ none ↦ rest | some account ↦ (user, account) ∷ rest ]
    else rest

unfoldable pub all : AccountFiles → List (Bytes × Bytes)
all files = accounts_of (keys files) files

-- PBKDF2-HMAC-SHA256 by password, salt and iterations; `none` where OpenSSL fails.
abbrev pub Derive : Type 0
Derive = Bytes → Bytes → ℕ → Option Bytes

-- std::to_string(ITERATIONS)
abbrev pub iterations_text : Bytes
iterations_text = text "100000"

-- The record of a password from random salt bytes; the empty string on failure.
unfoldable pub make_record : Derive → Option Bytes → Bytes → Bytes
make_record derive salt password = elim salt [
  | none ↦ []
  | some s ↦ elim (derive password s iterations) [
    | none ↦ []
    | some hash ↦
        scheme ++ (b'$' ∷ (iterations_text ++ (b'$' ∷ (to_hex s ++ (b'$' ∷ to_hex hash)))))
  ]
]

unfoldable pub verify : Derive → Bytes → Bytes → Bool
verify derive account password = elim (parse account) [
  | none ↦ false
  | some p ↦ elim (derive password p.salt p.iterations) [
    | none ↦ false
    | some hash ↦ hash is p.hash
  ]
]
