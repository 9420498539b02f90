-- ===== src/Protocol/Msg.antt =====
-- The message types of common/protocol.hpp. The enum's 16-bit type holds values that have no name
-- too: those are `raw`.
use sis_op.Base.{ℕ, ◌≡◌, refl, List, [], ◌∷◌, arith, ◌==◌, if◌then◌else◌}
use sis_op.Base.Keys.{Bytes}

pub data Msg : Type 0 where
  ok error : Msg
  login logout ping list_files upload download delete : Msg
  login_ok redirect pong file_list file : Msg
  sync_attach push_file push_delete server_list notice : Msg
  file_data file_end file_abort : Msg
  join join_ok election coordinator replica_attach replica_manifest : Msg
  repl_put repl_delete membership heartbeat repl_account status_request status : Msg
  raw : ℕ → Msg

-- static_cast<uint16_t>(type)
unfoldable pub code : Msg → ℕ
code ok = 1
code error = 2
code login = 10
code logout = 11
code ping = 12
code list_files = 13
code upload = 14
code download = 15
code delete = 16
code login_ok = 20
code redirect = 21
code pong = 22
code file_list = 23
code file = 24
code sync_attach = 30
code push_file = 31
code push_delete = 32
code server_list = 33
code notice = 34
code file_data = 40
code file_end = 41
code file_abort = 42
code join = 50
code join_ok = 51
code election = 52
code coordinator = 53
code replica_attach = 54
code replica_manifest = 55
code repl_put = 56
code repl_delete = 57
code membership = 58
code heartbeat = 59
code repl_account = 60
code status_request = 61
code status = 62
code (raw n) = n

abbrev named : List Msg
named =
    ok ∷ error ∷ login ∷ logout ∷ ping ∷ list_files ∷ upload ∷ download ∷ delete ∷ login_ok
    ∷ redirect ∷ pong ∷ file_list ∷ file ∷ sync_attach ∷ push_file ∷ push_delete ∷ server_list
    ∷ notice ∷ file_data ∷ file_end ∷ file_abort ∷ join ∷ join_ok ∷ election ∷ coordinator
    ∷ replica_attach ∷ replica_manifest ∷ repl_put ∷ repl_delete ∷ membership ∷ heartbeat
    ∷ repl_account ∷ status_request ∷ status ∷ []

pick : ℕ → List Msg → Msg
pick n [] = raw n
pick n (m ∷ ms) = if code m == n then m else pick n ms

-- static_cast<Msg>(n)
unfoldable pub from_code : ℕ → Msg
unfolding pick code
from_code n = pick n named

code-pick : (n : ℕ) (ms : List Msg) → code (pick n ms) ≡ n
unfolding code pick
code-pick n [] = refl
code-pick n (m ∷ ms) = ground (arith, code-pick n ms)

-- No number is lost by the cast to the enum and back.
pub code-from_code : (n : ℕ) → code (from_code n) ≡ n
unfolding from_code
code-from_code n = code-pick n named

-- A value of the enum that the cast gives back: every named one, and the numbers without a name.
abbrev pub IsCanonical : Msg → Type 0
IsCanonical m = from_code (code m) ≡ m

-- enum class Origin
pub data Origin : Type 0 where
  command sync : Origin

abbrev pub origin_code : Origin → ℕ
origin_code command = 0
origin_code sync = 1

pub record Message : Type 0 where
  pub type : Msg
  pub payload : Bytes
