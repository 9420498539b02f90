-- ===== src/Server/Health.antt =====
-- server/health.hpp and server/health.cpp: the expected servers, the state that each was found in, and
-- the problems that stand. What the network says is a parameter: the address that a host resolves to,
-- and the payload of a server's Status reply, `none` if it does not answer.
pub mod Recorded
pub mod Checked
pub mod Status
use sis_op.Base.{
  ℕ, ◌+◌, Bool, true, false, not, ◌&&◌, ◌||◌, Option, none, some, List, [], ◌∷◌, ◌++◌, length, ◌==◌,
  if◌then◌else◌,
}
use sis_op.Base.Keys.{Bytes, bytes_key}
use sis_op.Base.Dict.{Dict, lookup, insert, erase}
use sis_op.Protocol.Names.{text}
use sis_op.Protocol.Address.{ServerAddress, write_server, read_server}
use sis_op.Protocol.Carries.{WriterStep}
use sis_op.Protocol.Writer
use sis_op.Protocol.Reader
use sis_op.Protocol.Reader.{Reader, ◌>>=◌, return}
use sis_op.Files.Names.{◌is◌}
use sis_op.Protocol.Decimal.{to_string}
use sis_op.Server.Cluster.{Cluster, Role, primary_address}

pub record Endpoint : Type 0 where
  pub host : Bytes
  pub port : ℕ

pub data Health : Type 0 where
  unknown up down separate split : Health

unfoldable pub key : Endpoint → Bytes
key server = server.host ++ (text ":" ++ to_string server.port)

unfoldable pub health_eq : Health → Health → Bool
health_eq unknown unknown = true
health_eq up up = true
health_eq down down = true
health_eq separate separate = true
health_eq split split = true
health_eq _ _ = false

-- The Status reply: handle_status of server/cluster.cpp.
unfoldable pub role_code : Role → ℕ
role_code Role.primary = 2
role_code Role.backup = 1
role_code Role.joining = 0

abbrev pub nowhere : ServerAddress
nowhere = record { id = 0; host = []; port = 0 }

-- The primary that the reply names.
abbrev pub shown : Cluster → ServerAddress
shown c = if c.primary_known then c.primary else nowhere

unfoldable pub write_status : Cluster → WriterStep
write_status c buf =
    write_server (shown c)
      (Writer.u8 (if c.primary_known then 1 else 0) (Writer.u8 (role_code c.role) buf))

unfoldable pub read_status : Reader (ℕ × Bool × ServerAddress)
read_status = do
  role ← Reader.u8
  known ← Reader.u8
  leader ← read_server
  return (role, not (known == 0), leader)

module _ (resolve : Bytes → Bytes) where
  unfoldable pub same_server : Bytes → ℕ → Bytes → ℕ → Bool
  same_server host_a port_a host_b port_b =
      port_a == port_b && (host_a is host_b || resolve host_a is resolve host_b)

  unfoldable pub is_member : Endpoint → List ServerAddress → Bool
  is_member server [] = false
  is_member server (m ∷ members) =
      is_member server members || same_server server.host server.port m.host m.port

  -- The decision of `probe` over the Status reply of a server in this cluster's eyes.
  unfoldable pub judge : Endpoint → Option ServerAddress → ℕ × Bool × ServerAddress → Health × Bytes
  judge server ours (role, primary_known, theirs) =
      let with_us : Bool = elim ours [
        | none ↦ false
        | some leader ↦ same_server theirs.host theirs.port leader.host leader.port
      ] in
      if not (role == 2) && primary_known && with_us
      then (up, [])
      else if role == 2
      then (
        separate,
        text "expected server "
            ++ (key server
                ++ text
                    " is running as a separate primary (a network split, or it was started without --join)"),
      )
      else if not primary_known
      then (up, [])
      else (
        split,
        text "expected server "
            ++ (key server
                ++ (text " follows a different primary ("
                    ++ (theirs.host
                        ++ (text ":"
                            ++ (to_string theirs.port ++ text "): the cluster is split"))))),
      )

  -- `probe`; a malformed reply is an exception, which `check` catches.
  unfoldable pub probe : Endpoint → Option ServerAddress → Option Bytes → Health × Bytes
  probe server ours none = (
    down,
    text "expected server " ++ (key server ++ text " is not running (or can't be reached)"),
  )
  probe server ours (some payload) = elim (read_status payload) [
    | none ↦
        (down, text "expected server " ++ (key server ++ text " sent a malformed status reply"))
    | some (status, rest) ↦ judge server ours status
  ]

  -- What `check` finds of one server.
  unfoldable pub find : (Endpoint → Option Bytes) → Cluster → Endpoint → Health × Bytes
  find reply c server =
      if is_member server c.members
      then (up, [])
      else probe server (primary_address c) (reply server)

-- states_ and messages_. operator[] gives a server without an entry the state Unknown.
pub record Monitor : Type 0 where
  pub states : Dict Bytes Health
  pub messages : Dict Bytes Bytes

unfoldable pub state_of : Bytes → Monitor → Health
state_of k m = elim (lookup k m.states) [ none ↦ unknown | some h ↦ h ]

abbrev warning : Bytes → Bytes
warning detail = text "warning: " ++ detail

-- The critical section of `check` for one server, and what it adds to the changes.
unfoldable pub record_state : Endpoint → Health → Bytes → Monitor → Monitor × List Bytes
record_state server now detail m =
    let k = key server in
    let states = insert k now m.states in
    let back = text "expected server " ++ (k ++ text " is back in the cluster") in
    if health_eq now (state_of k m)
    then (record m { states = states }, [])
    else if health_eq now up
    then (
      record { states = states; messages = erase k m.messages },
      if health_eq (state_of k m) unknown then [] else back ∷ [],
    )
    else (
      record { states = states; messages = insert k (warning detail) m.messages },
      warning detail ∷ [],
    )

-- The text of `problems`: the messages in the order of the servers' keys, one per line.
unfoldable pub lines : Bytes → Dict Bytes Bytes → Bytes
lines acc [] = acc
lines acc ((k, line) ∷ messages) =
    lines (acc ++ ((if length acc == 0 then [] else text "\n") ++ line)) messages

unfoldable pub problems : Monitor → Bytes
problems m = lines [] m.messages

module _ (resolve : Bytes → Bytes) (reply : Endpoint → Option Bytes) (c : Cluster) where
  abbrev pub is_self : Endpoint → Bool
  is_self server = same_server resolve server.host server.port c.self.host c.self.port

  -- The body of the loop of `check`: the monitor, the changes, and whether the server is up.
  unfoldable pub visit : Endpoint → Monitor → Monitor × List Bytes × Bool
  visit server m =
      let (now, detail) = find resolve reply c server in
      let (m', changes) = record_state server now detail m in
      if is_self server then (m, [], true) else (m', changes, health_eq now up)

  -- The loop: the monitor, the changes, whether all are up, and the number of servers.
  unfoldable pub check_all : ℕ → List Endpoint → Monitor → Monitor × List Bytes × Bool × ℕ
  check_all listed [] m = (m, [], true, listed + 1)
  check_all listed (server ∷ servers) m =
      let (m', changes, good) = visit server m in
      let (last, more, all_up, total) = check_all listed servers m' in
      (last, changes ++ more, good && all_up, if is_self server then listed else total)

  -- `check`: the monitor and what is notified, in order.
  unfoldable pub check : List Endpoint → Monitor → Monitor × List Bytes
  check expected m =
      let (m', changes, all_up, total) = check_all (length expected) expected m in
      let ok = text "all " ++ (to_string total ++ text " expected servers are up") in
      (m', changes ++ (if not (length changes == 0) && all_up then ok ∷ [] else []))
