-- ===== src/Protocol/Writer.antt =====
-- Writer of common/protocol.cpp: each call appends to the buffer. `str` throws a ProtocolError
-- (`none`) on a string whose length does not fit in 16 bits. A signed value is the library's ℤ.
use sis_op.Base.{ℕ, ◌/◌, ◌%◌, ◌^◌, ◌++◌, ◌∷◌, [], Option, none, some, ltb, length, if◌then◌else◌}
use sis_op.Base.Int.{ℤ, to_u64}
use sis_op.Base.Keys.{Bytes}

-- static_cast to a narrower unsigned type.
abbrev pub cast : ℕ → ℕ → ℕ
cast bits value = value % 2 ^ bits

unfoldable pub u8 : ℕ → Bytes → Bytes
u8 value buf = buf ++ value ∷ []

unfoldable pub u16 : ℕ → Bytes → Bytes
u16 value buf = u8 (cast 8 value) (u8 (cast 8 (value / 2 ^ 8)) buf)

unfoldable pub u32 : ℕ → Bytes → Bytes
u32 value buf = u16 (cast 16 value) (u16 (cast 16 (value / 2 ^ 16)) buf)

unfoldable pub u64 : ℕ → Bytes → Bytes
u64 value buf = u32 (cast 32 value) (u32 (cast 32 (value / 2 ^ 32)) buf)

unfoldable pub i64 : ℤ → Bytes → Bytes
i64 value buf = u64 (to_u64 value) buf

unfoldable pub str : Bytes → Bytes → Option Bytes
str value buf =
    if ltb 0xFFFF (length value) then none else some (u16 (cast 16 (length value)) buf ++ value)
