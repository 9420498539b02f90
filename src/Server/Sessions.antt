-- ===== src/Server/Sessions.antt =====
-- server/sessions.hpp and server/sessions.cpp. A connection is known by a number; the bytes that
-- RAND_bytes gives (`none` where it fails) are an argument. Every method runs under the lock, so
-- it is one step.
pub mod Limit
pub mod Pushes
use sis_op.Base.{
  ℕ, suc, ◌+◌, ◌/◌, ◌%◌, Bool, true, false, not, ◌&&◌, ◌||◌, Option, none, some, List, [], ◌∷◌,
  ◌++◌, length, leb, ◌==◌, if◌then◌else◌,
}
use sis_op.Base.Keys.{Bytes, same, bytes_key}
use sis_op.Base.Dict.{Dict, lookup, insert, erase, modify}

pub record Session : Type 0 where
  pub user : Bytes
  pub command : ℕ
  pub sync : Option ℕ

-- sessions_, by token.
abbrev pub SessionManager : Type 0
SessionManager = Dict Bytes Session

abbrev pub max_sessions_per_user : ℕ
max_sessions_per_user = 2

abbrev pub hex_digit : ℕ → ℕ
hex_digit d = if leb d 9 then b'0' + d else 87 + d

-- The two digits of each byte; 87 is 'a' - 10.
unfoldable pub to_hex : Bytes → Bytes
to_hex [] = []
to_hex (b ∷ bytes) = hex_digit (b / 16) ∷ hex_digit (b % 16) ∷ to_hex bytes

unfoldable pub random_token : Option Bytes → Bytes
random_token none = []
random_token (some bytes) = to_hex bytes

-- The loop of `open` that counts the user's sessions.
unfoldable pub count : Bytes → SessionManager → ℕ
count user [] = 0
count user ((token, s) ∷ d) = if same s.user user then suc (count user d) else count user d

unfoldable pub is_none {ℓ} : {A : Type ℓ} → Option A → Bool
is_none none = true
is_none (some a) = false

-- The end of `open`, with the token drawn.
unfoldable pub open_with : Bytes → Session → SessionManager → SessionManager × Bytes
open_with token s d =
    if length token == 0 || not (is_none (lookup token d))
    then (d, [])
    else (insert token s d, token)

-- The new sessions and the token, which is empty if there is no session.
unfoldable pub open_session : Bytes → ℕ → Option Bytes → SessionManager → SessionManager × Bytes
open_session user command random d =
    if leb max_sessions_per_user (count user d)
    then (d, [])
    else open_with (random_token random) (record { user = user; command = command; sync = none }) d

abbrev connections : Session → List ℕ
connections s = s.command ∷ elim s.sync [ none ↦ [] | some c ↦ c ∷ [] ]

-- The sessions that stay, and the connections that are shut down.
unfoldable pub close_session : Bytes → SessionManager → SessionManager × List ℕ
close_session token d = elim (lookup token d) [
  | none ↦ (d, [])
  | some s ↦ (erase token d, connections s)
]

unfoldable pub attach_sync : Bytes → ℕ → SessionManager → SessionManager × Bool
attach_sync token sync d = elim (lookup token d) [
  | none ↦ (d, false)
  | some s ↦
      if is_none s.sync
      then (modify token (λ t. record t { sync = some sync }) d, true)
      else (d, false)
]

abbrev holds : ℕ → Option ℕ → Bool
holds c none = false
holds c (some d) = c == d

unfoldable pub detach_sync : Bytes → ℕ → SessionManager → SessionManager
detach_sync token sync d = elim (lookup token d) [
  | none ↦ d
  | some s ↦ if holds sync s.sync then modify token (λ t. record t { sync = none }) d else d
]

abbrev pub and_list : Option ℕ → List ℕ → List ℕ
and_list none l = l
and_list (some c) l = c ∷ l

unfoldable pub sync_connections : Bytes → Bytes → SessionManager → List ℕ
sync_connections user except [] = []
sync_connections user except ((token, s) ∷ d) =
    if not (same token except) && same s.user user
    then and_list s.sync (sync_connections user except d)
    else sync_connections user except d

unfoldable pub all_sync_connections : SessionManager → List ℕ
all_sync_connections [] = []
all_sync_connections ((token, s) ∷ d) = and_list s.sync (all_sync_connections d)
