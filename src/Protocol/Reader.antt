-- ===== src/Protocol/Reader.antt =====
-- Reader of common/protocol.cpp. Its state is the part of the payload from `pos_` on; `none` is a
-- ProtocolError. The two halves of a number share no bit, so `|` is `+`.
use sis_op.Base.{
  ℕ, zero, suc, ◌+◌, ◌*◌, ◌%◌, ◌^◌, List, ◌∷◌, [], Option, none, some, ltb, length, take, drop,
  if◌then◌else◌,
}
use sis_op.Base.Int.{ℤ, to_i64}
use sis_op.Base.Keys.{Bytes}

abbrev pub Reader {ℓ} : Type ℓ → Type ℓ
Reader A = Bytes → Option (A × Bytes)

infixl 5 ◌>>=◌
abbrev pub ◌>>=◌ {ℓ κ} : {A : Type ℓ} {B : Type κ} → Reader A → (A → Reader B) → Reader B
◌>>=◌ m f r = elim (m r) [ none ↦ none | some (a, rest) ↦ f a rest ]

abbrev pub return {ℓ} : {A : Type ℓ} → A → Reader A
return a r = some (a, r)

-- `pos_` never passes the end, so the difference of the source does not wrap.
unfoldable pub take_bytes : ℕ → Reader Bytes
take_bytes n r = if ltb (length r) n then none else some (take n r, drop n r)

abbrev pub byte_at : ℕ → Bytes → ℕ
byte_at i [] = 0
byte_at zero (b ∷ p) = b
byte_at (suc i) (b ∷ p) = byte_at i p

unfoldable pub u8 : Reader ℕ
u8 = do p ← take_bytes 1; return (byte_at 0 p)

unfoldable pub u16 : Reader ℕ
u16 = do p ← take_bytes 2; return ((byte_at 0 p * 2 ^ 8 + byte_at 1 p) % 2 ^ 16)

unfoldable pub u32 : Reader ℕ
u32 = do high ← u16; low ← u16; return (high * 2 ^ 16 + low)

unfoldable pub u64 : Reader ℕ
u64 = do high ← u32; low ← u32; return (high * 2 ^ 32 + low)

unfoldable pub i64 : Reader ℤ
i64 = do value ← u64; return (to_i64 value)

unfoldable pub str : Reader Bytes
str = do size ← u16; take_bytes size

-- A loop that reads `n` fields of one kind.
unfoldable pub repeat {ℓ} : {A : Type ℓ} → ℕ → Reader A → Reader (List A)
repeat zero read = return []
repeat (suc n) read = do a ← read; rest ← repeat n read; return (a ∷ rest)
