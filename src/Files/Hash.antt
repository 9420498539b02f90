-- ===== src/Files/Hash.antt =====
-- Fnv1a of common/files.cpp, on 64-bit words.
use Prim.Native.Nat.{bit_xor}
use sis_op.Base.{ℕ, ◌*◌, ◌%◌, ◌^◌, ◌≡◌, ◌<◌, refl, [], ◌∷◌, ◌++◌, arith}
use sis_op.Base.Keys.{Bytes}

abbrev pub fnv_start : ℕ
fnv_start = 1469598103934665603

-- One round of `update`.
unfoldable pub fnv_byte : ℕ → ℕ → ℕ
fnv_byte hash byte = bit_xor hash byte * 1099511628211 % 2 ^ 64

unfoldable pub fnv_update : ℕ → Bytes → ℕ
fnv_update hash [] = hash
fnv_update hash (b ∷ bytes) = fnv_update (fnv_byte hash b) bytes

-- The content hash of a file.
unfoldable pub fnv : Bytes → ℕ
fnv = fnv_update fnv_start

-- The hash may be fed piece by piece.
pub fnv_update-append :
    (hash : ℕ) (a b : Bytes) → fnv_update hash (a ++ b) ≡ fnv_update (fnv_update hash a) b
unfolding fnv_update
fnv_update-append hash [] b = refl
fnv_update-append hash (x ∷ a) b = fnv_update-append (fnv_byte hash x) a b

pub fnv_update-lt : (hash : ℕ) (a : Bytes) → hash < 2 ^ 64 → fnv_update hash a < 2 ^ 64
unfolding fnv_update fnv_byte
fnv_update-lt hash [] h = h
fnv_update-lt hash (x ∷ a) h = fnv_update-lt (fnv_byte hash x) a (omega arith)
