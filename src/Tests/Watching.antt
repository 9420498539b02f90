-- ===== src/Tests/Watching.antt =====
-- The health monitor, the endpoints and the front of a server.
use sis_op.Base.{ℕ, ◌≡◌, refl, true, false, none, some, List, [], ◌∷◌, arith, map}
use sis_op.Base.Keys.{Bytes, bytes_key, bytes_cmp}
use sis_op.Base.Dict.{lookup}
use sis_op.Protocol.Names.{text}
use sis_op.Protocol.Msg
use sis_op.Protocol.Writer
use sis_op.Protocol.Address.{ServerAddress, write_server}
use sis_op.Server.Cluster.{Cluster, Role, primary_address}
use sis_op.Server.Health.{Endpoint, Monitor, key, check, probe, write_status, role_code, state_of}
use sis_op.Server.Health.Recorded.{Agree}
use sis_op.Server.Health.Checked.{check-Agree}
use sis_op.Server.Health.Status.{verdict, probe-verdict}
use sis_op.Server.Health.{problems}
use sis_op.Protocol.Msg.{Message}
use sis_op.Files.Transfer.{message}
use sis_op.Server.Sessions.{SessionManager, attach_sync, is_none}
use sis_op.Server.Pushing.{serve_sync}
use sis_op.Server.Pushing.Notices.{heard, serve_sync-problems}
use sis_op.Server.Endpoint.{parse_endpoint}
use sis_op.Server.Endpoint.Printed.{parse_endpoint-key}

abbrev server : ℕ → ServerAddress
server id = record { id = id; host = text "h"; port = 4000 }

abbrev watcher : Cluster
watcher = record {
  self = server 999;
  role = Role.backup;
  primary = server 1000;
  primary_known = true;
  members = server 1000 ∷ server 999 ∷ [];
  lowest_id = 0;
  links = [];
  primary_link = none;
  building_manifest = false;
  coordinator_seen = false;
}

-- A primary of its own.
abbrev stranger : Cluster
stranger = record watcher { self = server 1; role = Role.primary; primary = server 1 }

abbrev expected : List Endpoint
expected = record { host = text "a"; port = 1 } ∷ record { host = text "b"; port = 2 } ∷ []

abbrev new_monitor : Monitor
new_monitor = record { states = []; messages = [] }

new_monitor-Agree : Agree new_monitor
unfolding lookup state_of
new_monitor-Agree k = refl

check-Agree_example : Agree (check (λ host. host) (λ s. none) watcher expected new_monitor).0
check-Agree_example =
    check-Agree (λ host. host) (λ s. none) watcher expected new_monitor new_monitor-Agree

-- The reply of the stranger: a primary that knows itself, with the id 1, at h:4000.
abbrev status_bytes : Bytes
status_bytes = 2 ∷ 1 ∷ 0 ∷ 0 ∷ 0 ∷ 1 ∷ 0 ∷ 1 ∷ 104 ∷ 15 ∷ 160 ∷ []

status_written : write_status stranger [] ≡ some status_bytes
unfolding write_status write_server Writer.str Writer.u16 Writer.u8 Writer.u32 role_code
status_written = refl

probe-verdict_example :
    (probe
      (λ host. host)
      (record { host = text "a"; port = 1 })
      (primary_address watcher)
      (some status_bytes)).0
    ≡ verdict (λ host. host) (primary_address watcher) stranger
probe-verdict_example =
    probe-verdict (λ host. host) (record { host = text "a"; port = 1 }) watcher stranger
      status_bytes
      (record { id_fits = omega arith; host_fits = omega arith; port_fits = omega arith })
      status_written

parse_endpoint-key_example :
    parse_endpoint (key (record { host = text "localhost"; port = 4000 }))
    ≡ some (record { host = text "localhost"; port = 4000 })
parse_endpoint-key_example =
    parse_endpoint-key (record { host = text "localhost"; port = 4000 }) refl (omega arith)
      (omega arith)

-- Two problems.
abbrev troubled : Monitor
troubled = record {
  states = [];
  messages = (text "a:1", text "down") ∷ (text "b:2", text "gone") ∷ [];
}

-- A session without a sync connection.
abbrev attached_sessions : SessionManager
attached_sessions = (text "t", record { user = text "ana"; command = 6; sync = none }) ∷ []

session_known : (attach_sync (text "t") 7 attached_sessions).1 ≡ true
unfolding attach_sync lookup bytes_cmp is_none
session_known = refl

serve_sync-problems_example :
    (sent : List Message) × (serve_sync true (text "t") 7 (problems troubled) attached_sessions
      ≡ ((attach_sync (text "t") 7 attached_sessions).0, some (message Msg.ok [] ∷ sent)))
    × (map heard sent ≡ some (text "down") ∷ some (text "gone") ∷ [])
serve_sync-problems_example =
    serve_sync-problems (text "t") 7 troubled attached_sessions session_known
      ((refl, (refl, (refl, (refl, (refl, tt))))), ((refl, (refl, (refl, (refl, (refl, tt))))), tt))
      (omega arith, (omega arith, tt))
