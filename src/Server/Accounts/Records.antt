-- ===== src/Server/Accounts/Records.antt =====
-- Records that the server writes are records that it accepts, and they check the password.
use sis_op.Base.{
  ℕ, ◌/◌, ◌%◌, ◌<◌, ◌≡◌, ◌≢◌, ◌↔◌, refl, ap, ◌∙◌, true, false, Option, none, some, [], ◌∷◌, ◌++◌,
  length, All, arith,
}
use sis_op.Base.Keys.{Bytes, bytes_key, same_of_eq, same_self, eq_of_same, bytes_cmp}
use sis_op.Files.Names.{◌is◌, all_chars}
use sis_op.Server.Sessions.{is_none, to_hex, hex_digit}
use sis_op.Server.Accounts.{
  Derive, from_digit, from_hex, fields, decimal, parse, parse_list, parse_fields, make_record,
  verify, scheme, iterations, hash_size, iterations_text, is_valid_record,
}

abbrev IsByte : ℕ → Type 0
IsByte b = b < 256

from_digit-hex_digit : (d : ℕ) → d < 16 → from_digit (hex_digit d) ≡ some d
unfolding from_digit
from_digit-hex_digit d h = ground arith

-- Decoding undoes encoding, for every string of bytes.
pub from_hex-to_hex : (bytes : Bytes) → All IsByte bytes → from_hex (to_hex bytes) ≡ some bytes
unfolding from_hex to_hex
from_hex-to_hex [] h = refl
from_hex-to_hex (b ∷ bytes) h =
    rw
      (
        from_digit-hex_digit (b / 16) (omega (arith, h.0)),
        from_digit-hex_digit (b % 16) (omega arith),
        from_hex-to_hex bytes h.1,
      )
      (ap {B = Option Bytes} (λ (n : ℕ). some (n ∷ bytes)) (omega arith))

-- A field without '$'.
abbrev NoDollar : Bytes → Type 0
NoDollar = All (λ c. c ≢ b'$')

fields-append :
    (field rest : Bytes) → NoDollar field → fields (field ++ (b'$' ∷ rest)) ≡ field ∷ fields rest
unfolding fields
fields-append [] rest h = refl
fields-append (c ∷ cs) rest h = ground (arith, h.0, fields-append cs rest h.1)

fields-last : (c : ℕ) (field : Bytes) → NoDollar (c ∷ field) → fields (c ∷ field) ≡ (c ∷ field) ∷ []
unfolding fields
fields-last c [] h = ground (arith, h.0)
fields-last c (d ∷ field) h = ground (arith, h.0, fields-last d field h.1)

to_hex-NoDollar : (bytes : Bytes) → NoDollar (to_hex bytes)
unfolding to_hex
to_hex-NoDollar [] = tt
to_hex-NoDollar (b ∷ bytes) = (ground arith, (ground arith, to_hex-NoDollar bytes))

-- What `make_record` asks of the salt and the key derivation: bytes, of the lengths that it passes.
pub record IsDerived (derive : Derive) (salt password hash : Bytes) : Type 0 where
  pub salt_bytes : All IsByte salt
  pub salt_some : 0 < length salt
  pub derived : derive password salt iterations ≡ some hash
  pub hash_bytes : All IsByte hash
  pub hash_length : length hash ≡ hash_size

fields-hex : (hash : Bytes) → 0 < length hash → fields (to_hex hash) ≡ to_hex hash ∷ []
unfolding to_hex
fields-hex [] h = absurd (omega arith)
fields-hex (b ∷ hash) h =
    fields-last (hex_digit (b / 16)) (hex_digit (b % 16) ∷ to_hex hash) (to_hex-NoDollar (b ∷ hash))

fields-record :
    (salt hash : Bytes)
    → 0 < length hash
    → fields
        (scheme ++ (b'$' ∷ (iterations_text ++ (b'$' ∷ (to_hex salt ++ (b'$' ∷ to_hex hash))))))
      ≡ scheme ∷ iterations_text ∷ to_hex salt ∷ to_hex hash ∷ []
fields-record salt hash h =
    fields-append scheme _ (omega arith)
    ∙ ap (◌∷◌ scheme) (
        fields-append iterations_text _ (omega arith)
        ∙ ap (◌∷◌ iterations_text) (
            fields-append (to_hex salt) _ (to_hex-NoDollar salt)
            ∙ ap (◌∷◌ (to_hex salt)) (fields-hex hash h)))

parse_fields-hex :
    (salt hash : Bytes)
    → All IsByte salt
    → 0 < length salt
    → All IsByte hash
    → length hash ≡ hash_size
    → parse_fields scheme iterations_text (to_hex salt) (to_hex hash)
      ≡ some (record { iterations = iterations; salt = salt; hash = hash })
unfolding parse_fields all_chars decimal bytes_cmp
parse_fields-hex salt hash sb sp hb hl =
    rw (from_hex-to_hex salt sb, from_hex-to_hex hash hb) (ground arith)

-- The record made for a password is parsed back into the salt and the hash that went into it.
pub parse-make_record :
    (derive : Derive) (salt password hash : Bytes)
    → IsDerived derive salt password hash
    → parse (make_record derive (some salt) password)
      ≡ some (record { iterations = iterations; salt = salt; hash = hash })
unfolding parse make_record
parse-make_record derive salt password hash d =
    rw (d.derived, make_record)
      (ap parse_list (fields-record salt hash (omega (arith, d.hash_length)))
        ∙ unfold parse_list in
          parse_fields-hex salt hash d.salt_bytes d.salt_some d.hash_bytes d.hash_length)

-- The record made for a password is valid, that password passes the check against it, and another
-- passes exactly if it derives the same hash from the same salt; for salts and hashes of the lengths
-- and bytes that the code draws and derives.
pub verify-make_record :
    (derive : Derive) (salt password other hash : Bytes)
    → IsDerived derive salt password hash
    → let account = make_record derive (some salt) password in
      (is_valid_record account ≡ true)
      × (verify derive account password ≡ true)
      × ((verify derive account other ≡ true) ↔ (derive other salt iterations ≡ some hash))
unfolding verify is_valid_record is_none
verify-make_record derive salt password other hash d = (
  rw (parse-make_record derive salt password hash d),
  rw (parse-make_record derive salt password hash d, verify)
      (rw (d.derived, verify) (same_self hash)),
  rw (parse-make_record derive salt password hash d, verify)
      (checks (derive other salt iterations)),
)
  where
    checks :
        (o : Option Bytes) → (elim o [ none ↦ false | some h ↦ h is hash ] ≡ true) ↔ (o ≡ some hash)
    checks none = ((λ e. cc), (λ e. cc))
    checks (some h) =
        ((λ e. ap some (eq_of_same h hash e)), (λ e. same_of_eq h hash (ground arith)))
