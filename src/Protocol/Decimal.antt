-- ===== src/Protocol/Decimal.antt =====
-- std::to_string of a number.
use sis_op.Base.{ℕ, zero, suc, ◌+◌, ◌/◌, ◌%◌, [], ◌∷◌, ltb, if◌then◌else◌}
use sis_op.Base.Keys.{Bytes}

-- The decimal digits of a number, in front of `acc`; the fuel exceeds the number.
unfoldable pub digits : ℕ → ℕ → Bytes → Bytes
digits zero n acc = acc
digits (suc fuel) n acc =
    let rest = digits fuel (n / 10) ((b'0' + n % 10) ∷ acc) in
    if ltb n 10 then (b'0' + n % 10) ∷ acc else rest

-- std::to_string
unfoldable pub to_string : ℕ → Bytes
to_string n = digits (suc n) n []
