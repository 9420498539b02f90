-- ===== src/Server/Front.antt =====
-- handle_connection of server/server.cpp with the handlers of server/cluster.cpp that it calls, for the
-- messages that change or tell the membership. A connection is known by a number.
use sis_op.Base.{ℕ, Bool, true, false, not, ◌&&◌, Option, none, some, [], ltb, if◌then◌else◌}
use sis_op.Base.Keys.{Bytes, nat_key}
use sis_op.Base.Dict.{lookup}
use sis_op.Protocol.Msg.{Msg}
use sis_op.Protocol.Names.{text}
use sis_op.Protocol.Address.{ServerAddress, read_server}
use sis_op.Protocol.Reader
use sis_op.Protocol.Reader.{Reader, ◌>>=◌, return}
use sis_op.Server.Cluster.{Cluster, is_primary, JoinReply, handle_join, follow}
use sis_op.Server.Health.{write_status}

unfoldable pub is_cluster_message : Msg → Bool
is_cluster_message Msg.join = true
is_cluster_message Msg.election = true
is_cluster_message Msg.coordinator = true
is_cluster_message Msg.replica_attach = true
is_cluster_message Msg.status_request = true
is_cluster_message _ = false

unfoldable pub read_join : Reader (Bytes × ℕ)
read_join = do host ← Reader.str; port ← Reader.u16; return (host, port)

-- What a handler does, besides what it does to the membership.
pub data Reaction : Type 0 where
  -- A payload that cannot be read.
  malformed : Reaction
  join_answered : JoinReply → Reaction
  -- Ok; then an election starts.
  elect : Reaction
  -- Ok; then, on the primary, the candidate hears who leads, and is linked again if it has no link.
  reassure : ServerAddress → Bool → Reaction
  -- Ok to the new primary.
  obey : Reaction
  status : Option Bytes → Reaction

abbrev has_link : Cluster → ℕ → Bool
has_link c id = elim (lookup id c.links) [ none ↦ false | some link ↦ true ]

unfoldable pub handle_election : ServerAddress → Cluster → Reaction
handle_election candidate c =
    if is_primary c.role then reassure candidate (has_link c candidate.id) else elect

unfoldable pub handle_coordinator : ServerAddress → Cluster → Cluster × Reaction
handle_coordinator leader c = (follow leader c, if ltb leader.id c.self.id then elect else obey)

-- Join, Election, Coordinator and StatusRequest, with their payloads.
unfoldable pub receive_join : Bytes → Cluster → Cluster × Reaction
receive_join payload c = elim (read_join payload) [
  | none ↦ (c, malformed)
  | some ((host, port), rest) ↦
      let (c', reply) = handle_join host port c in (c', join_answered reply)
]

unfoldable pub receive_election : Bytes → Cluster → Reaction
receive_election payload c = elim (read_server payload) [
  | none ↦ malformed
  | some (candidate, rest) ↦ handle_election candidate c
]

unfoldable pub receive_coordinator : Bytes → Cluster → Cluster × Reaction
receive_coordinator payload c = elim (read_server payload) [
  | none ↦ (c, malformed)
  | some (leader, rest) ↦ handle_coordinator leader c
]

unfoldable pub receive_status : Cluster → Reaction
receive_status c = status (write_status c [])

-- The handler that a connection goes to. An Error closes it.
pub data Handler : Type 0 where
  refuse : Bytes → Handler
  to_client to_sync to_join to_election to_coordinator to_replica_attach to_status : Handler

-- The switch over the first message.
unfoldable pub dispatch : Msg → Handler
dispatch Msg.login = to_client
dispatch Msg.sync_attach = to_sync
dispatch Msg.join = to_join
dispatch Msg.election = to_election
dispatch Msg.coordinator = to_coordinator
dispatch Msg.replica_attach = to_replica_attach
dispatch Msg.status_request = to_status
dispatch _ = refuse (text "unexpected message")

-- `certified` says whether the peer showed a server's certificate.
unfoldable pub handle_connection : Bool → Msg → Handler
handle_connection certified type =
    if is_cluster_message type && not certified
    then refuse (text "a server certificate is required")
    else dispatch type
