-- ===== src/Server/Endpoint.antt =====
-- parse_port and parse_endpoint of common/net.cpp, and the texts that they read.
pub mod Printed
use sis_op.Base.{
  ℕ, suc, Bool, true, false, not, ◌&&◌, ◌||◌, Option, none, some, List, [], ◌∷◌, take, drop, length,
  ltb, ◌==◌, if◌then◌else◌,
}
use sis_op.Base.Keys.{Bytes}
use sis_op.Files.Names.{all_chars}
use sis_op.Server.Accounts.{is_digit, decimal}
use sis_op.Server.Health.{Endpoint}

unfoldable pub parse_port : Bytes → Option ℕ
parse_port text =
    if length text == 0 || ltb 5 (length text) || not (all_chars is_digit text)
    then none
    else if decimal 0 text == 0 || ltb 65535 (decimal 0 text)
    then none
    else some (decimal 0 text)

-- rfind(':'): the number of characters before the last colon.
unfoldable pub last_colon : Bytes → Option ℕ
last_colon [] = none
last_colon (c ∷ cs) = elim (last_colon cs) [
  | some n ↦ some (suc n)
  | none ↦ if c == b':' then some 0 else none
]

abbrev pub with_port : Bytes → Option ℕ → Option Endpoint
with_port host none = none
with_port host (some port) = some (record { host = host; port = port })

abbrev pub parse_at : Bytes → Option ℕ → Option Endpoint
parse_at text none = none
parse_at text (some n) =
    if n == 0 then none else with_port (take n text) (parse_port (drop (suc n) text))

-- The host is what stands before the last colon.
unfoldable pub parse_endpoint : Bytes → Option Endpoint
parse_endpoint text = parse_at text (last_colon text)
