-- ===== src/Connection.antt =====
-- common/connection.hpp and common/connection.cpp: frames and request/reply exchanges. TLS and the
-- sockets are not modelled: what they deliver within the time limits is a list of bytes, after
-- which the peer has closed the connection (`ends`) or is silent.
pub mod Frames
use sis_op.Base.{ℕ, ◌*◌, Bool, Option, none, some, [], ◌∷◌, ◌++◌, length, ltb, if◌then◌else◌, ◌==◌}
use sis_op.Base.Keys.{Bytes}
use sis_op.Protocol.Msg
use sis_op.Protocol.Msg.{Msg, Message, code, from_code}
use sis_op.Protocol.Names.{msg_name, text}
use sis_op.Protocol.Writer
use sis_op.Protocol.Reader
use sis_op.Protocol.Reader.{Reader, ◌>>=◌, return}

abbrev pub max_payload : ℕ
max_payload = 1024 * 1024

pub data RecvStatus : Type 0 where
  ok timeout closed : RecvStatus

-- What Connection::recv returns and fills in, and the bytes left for the next call.
pub record Received : Type 0 where
  pub status : RecvStatus
  pub message : Option Message
  pub left : Bytes

-- The frame that Connection::send_locked hands to write_all; `none` where it returns false at once.
unfoldable pub frame : Msg → Bytes → Option Bytes
frame type payload =
    if ltb max_payload (length payload)
    then none
    else some (
        Writer.u32 (Writer.cast 32 (length payload)) (Writer.u16 0 (Writer.u16 (code type) []))
        ++ payload)

-- The frame's header, without the reserved field.
unfoldable pub read_header : Reader (Msg × ℕ)
read_header = do
  type ← Reader.u16
  reserved ← Reader.u16
  size ← Reader.u32
  return (from_code type, size)

abbrev gone : Bytes → Received
gone rest = record { status = RecvStatus.closed; message = none; left = rest }

-- The payload, once the header is there.
unfoldable pub recv_payload : Msg → ℕ → Bytes → Received
recv_payload type size rest =
    if ltb max_payload size then gone rest else elim (Reader.take_bytes size rest) [
      | none ↦ gone rest
      | some (payload, left) ↦ record {
        status = RecvStatus.ok;
        message = some (record { type = type; payload = payload });
        left = left;
      }
    ]

-- Connection::recv. A frame that has begun and does not come whole counts as closed.
unfoldable pub recv : Bool → Bytes → Received
recv ends [] = record {
  status = if ends then RecvStatus.closed else RecvStatus.timeout;
  message = none;
  left = [];
}
recv ends (b ∷ more) = elim (read_header (b ∷ more)) [
  | none ↦ gone (b ∷ more)
  | some ((type, size), rest) ↦ recv_payload type size rest
]

pub data CallResult : Type 0 where
  ok rejected failed : CallResult

-- The end of `call`: the request was sent or not, then a reply came or not.
unfoldable pub call_result : Bool → Received → Msg → CallResult
call_result sent received expected =
    if sent
    then elim received.message [
      | none ↦ CallResult.failed
      | some reply ↦ if code reply.type == code expected then CallResult.ok else CallResult.rejected
    ]
    else CallResult.failed

unfoldable pub error_reason : Message → Bytes
error_reason reply =
    let other = text "unexpected reply " ++ msg_name reply.type in
    if code reply.type == code Msg.error
    then elim (Reader.str reply.payload) [ none ↦ other | some (reason, rest) ↦ reason ]
    else other

-- The payload that send_error sends, if the reason fits.
unfoldable pub error_payload : Bytes → Option Bytes
error_payload reason = Writer.str reason []
