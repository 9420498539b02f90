-- ===== src/Client/Connect.antt =====
-- connect_once of client/client.cpp and send_redirect of server/server.cpp. What the servers do is a
-- parameter: what each attempt meets.
pub mod Order
pub mod Reaches
use sis_op.Base.{
  ℕ, zero, suc, Bool, true, false, Option, none, some, List, [], ◌∷◌, ◌++◌, map, length, ltb, ◌==◌,
  if◌then◌else◌,
}
use sis_op.Base.Keys.{Bytes}
use sis_op.Protocol.Msg
use sis_op.Protocol.Msg.{Msg, Message}
use sis_op.Protocol.Address.{ServerAddress, write_servers, read_servers}
use sis_op.Protocol.Carries.{WriterStep, and_write}
use sis_op.Protocol.Writer
use sis_op.Protocol.Reader
use sis_op.Protocol.Reader.{Reader, ◌>>=◌, return}

pub data ConnectResult : Type 0 where
  connected refused unreachable : ConnectResult

-- A host and a port.
abbrev pub Candidate : Type 0
Candidate = Bytes × ℕ

-- What an attempt meets: the reply to Login, `none` without a connection or a reply; whether the sync
-- connection is accepted; and whether the client is stopping before the attempt.
pub record Attempt : Type 0 where
  pub reply : Option Message
  pub attached : Bool
  pub stopping : Bool

-- The payload of Redirect.
unfoldable pub write_redirect : Option ServerAddress → WriterStep
write_redirect (some leader) =
    and_write (Writer.str leader.host) (λ buf. some (Writer.u16 leader.port buf))
write_redirect none = and_write (Writer.str []) (λ buf. some (Writer.u16 0 buf))

unfoldable pub read_redirect : Reader Candidate
read_redirect = do host ← Reader.str; port ← Reader.u16; return (host, port)

-- The payload of LoginOk: the session's token and the servers.
unfoldable pub write_login_ok : Bytes → List ServerAddress → WriterStep
write_login_ok token servers = and_write (Writer.str token) (write_servers servers)

unfoldable pub read_login_ok : Reader (Bytes × List ServerAddress)
read_login_ok = do token ← Reader.str; servers ← read_servers; return (token, servers)

-- std::sort by descending id.
unfoldable pub put_in : ServerAddress → List ServerAddress → List ServerAddress
put_in server [] = server ∷ []
put_in server (s ∷ servers) =
    if ltb server.id s.id then s ∷ put_in server servers else server ∷ s ∷ servers

unfoldable pub by_id : List ServerAddress → List ServerAddress
by_id [] = []
by_id (server ∷ servers) = put_in server (by_id servers)

-- The addresses to try: those of the known servers, then the one of the command line.
unfoldable pub candidates : List ServerAddress → Candidate → List Candidate
candidates known given = map (λ (s : ServerAddress). (s.host, s.port)) (by_id known) ++ (given ∷ [])

-- How an attempt ends.
pub data Step : Type 0 where
  -- The address to insert, if any.
  go_on : Option Candidate → Step
  login_refused : Step
  login_accepted : Bytes → List ServerAddress → Step

unfoldable pub follow_redirect : Candidate → Option Candidate
follow_redirect (host, port) = if length host == 0 then none else some (host, port)

-- The body of the loop after the reply to Login. A malformed payload is caught there.
unfoldable pub handle_reply : Bool → Msg → Bytes → Step
handle_reply attached Msg.login_ok payload = elim (read_login_ok payload) [
  | none ↦ go_on none
  | some ((token, servers), rest) ↦ if attached then login_accepted token servers else go_on none
]
handle_reply attached Msg.redirect payload = elim (read_redirect payload) [
  | none ↦ go_on none
  | some (candidate, rest) ↦ go_on (follow_redirect candidate)
]
handle_reply attached _ payload = login_refused

unfoldable pub try_server : Attempt → Step
try_server a = elim a.reply [
  | none ↦ go_on none
  | some m ↦ handle_reply a.attached m.type m.payload
]

abbrev pub with_redirect : Option Candidate → List Candidate → List Candidate
with_redirect none rest = rest
with_redirect (some candidate) rest = candidate ∷ rest

-- What connect_once leaves: its result, the address it is connected to with the token and the servers,
-- and the addresses it tried, in order.
pub record Connected : Type 0 where
  pub result : ConnectResult
  pub session : Option (Candidate × Bytes × List ServerAddress)
  pub tried : List Candidate

abbrev pub after : Candidate → Connected → Connected
after candidate c = record c { tried = candidate ∷ c.tried }

-- The end of an attempt; `next` is the rest of the loop.
unfoldable pub conclude :
    (ConnectResult → Option Candidate → Connected) → ConnectResult → Candidate → Step → Connected
conclude next result candidate (go_on inserted) = after candidate (next result inserted)
conclude next result candidate login_refused = after candidate (next ConnectResult.refused none)
conclude next result candidate (login_accepted token servers) = record {
  result = ConnectResult.connected;
  session = some (candidate, token, servers);
  tried = candidate ∷ [];
}

abbrev pub ended : ConnectResult → Connected
ended result = record { result = result; session = none; tried = [] }

-- The loop, from the attempt with this number on: `left` attempts are left.
unfoldable pub try_all :
    (ℕ → Candidate → Attempt) → ℕ → ℕ → ConnectResult → List Candidate → Connected
try_all world number left result [] = ended result
try_all world number zero result (candidate ∷ rest) = ended result
try_all world number (suc left) result (candidate ∷ rest) =
    if (world number candidate).stopping
    then ended result
    else conclude
        (λ result inserted. try_all world (suc number) left result (with_redirect inserted rest))
        result candidate (try_server (world number candidate))

abbrev pub max_attempts : ℕ
max_attempts = 20

unfoldable pub connect_once : (ℕ → Candidate → Attempt) → List ServerAddress → Candidate → Connected
connect_once world known given =
    try_all world 0 max_attempts ConnectResult.unreachable (candidates known given)
