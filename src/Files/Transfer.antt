-- ===== src/Files/Transfer.antt =====
-- send_file and recv_file_body of common/files.cpp. A connection is the list of messages that pass;
-- `room` is the number of messages that it still takes before it fails.
pub mod Delivery
use sis_op.Base.{
  ℕ, zero, suc, ◌+◌, ◌-◌, ◌*◌, ◌<◌, min, Bool, true, false, not, ◌&&◌, ◌||◌, Option, none, some,
  List, [], ◌∷◌, ◌++◌, length, take, drop, ltb, ◌==◌, if◌then◌else◌,
}
use sis_op.Base.Keys.{Bytes}
use sis_op.Protocol.Msg
use sis_op.Protocol.Msg.{Msg, Message, file_data, file_end, file_abort}
use sis_op.Files.Hash.{fnv_start, fnv_update}

abbrev pub file_chunk_size : ℕ
file_chunk_size = 64 * 1024

pub data TransferResult : Type 0 where
  ok not_sent file_error connection_lost : TransferResult

-- The messages sent, and the result.
pub record Sent : Type 0 where
  pub messages : List Message
  pub result : TransferResult

abbrev pub message : Msg → Bytes → Message
message type payload = record { type = type; payload = payload }

abbrev pub sent_first : Message → Sent → Sent
sent_first m s = record s { messages = m ∷ s.messages }

-- The end of a body, after the file was read whole or not.
unfoldable pub send_end : ℕ → TransferResult → Sent
send_end zero result = record { messages = []; result = TransferResult.connection_lost }
send_end (suc room) TransferResult.ok = record {
  messages = message file_end [] ∷ [];
  result = TransferResult.ok;
}
send_end (suc room) result = record { messages = message file_abort [] ∷ []; result = result }

-- The loop of send_file. `content` is what the file still holds when it is read; it may differ in
-- length from the size announced. The fuel is the number of bytes left, of which each round
-- sends at least one.
unfoldable pub send_body : ℕ → ℕ → ℕ → ℕ → Bytes → Sent
send_body fuel chunk_size room zero content = send_end room TransferResult.ok
send_body zero chunk_size room (suc remaining) content = send_end room TransferResult.file_error
send_body (suc fuel) chunk_size zero (suc remaining) content =
    if ltb (length content) (min (suc remaining) chunk_size)
    then send_end zero TransferResult.file_error
    else record { messages = []; result = TransferResult.connection_lost }
send_body (suc fuel) chunk_size (suc room) (suc remaining) content =
    let chunk = min (suc remaining) chunk_size in
    let rest = send_body fuel chunk_size room (suc remaining - chunk) (drop chunk content) in
    if ltb (length content) chunk
    then send_end (suc room) TransferResult.file_error
    else sent_first (message file_data (take chunk content)) rest

-- send_file: the header message, then the body. `size` is what fstat reported (`none` if the file is
-- no regular file that can be opened).
unfoldable pub send_file : ℕ → Msg → Bytes → Option ℕ → Bytes → Sent
send_file room type header none content = record { messages = []; result = TransferResult.not_sent }
send_file zero type header (some size) content = record {
  messages = [];
  result = TransferResult.connection_lost;
}
send_file (suc room) type header (some size) content =
    sent_first (message type header) (send_body size file_chunk_size room size content)

-- What recv_file_body has after a message: the bytes that came, those that were written to `dest`, and
-- the loop's other variables.
pub record Receiving : Type 0 where
  pub content : Bytes
  pub written : Bytes
  pub hash : ℕ
  pub write_ok : Bool

-- The result, the file at `dest` (`none` if it was removed), the hash of the bytes, and the
-- messages that were not read.
pub record BodyReceived : Type 0 where
  pub result : TransferResult
  pub stored : Option Bytes
  pub hash : ℕ
  pub left : List Message

abbrev pub broken : Receiving → List Message → BodyReceived
broken s left = record {
  result = TransferResult.connection_lost;
  stored = none;
  hash = s.hash;
  left = left;
}

-- The code after the loop, when the stream is in step.
unfoldable pub finish_body : Receiving → Bool → List Message → BodyReceived
finish_body s aborted left =
    if not s.write_ok || aborted
    then record { result = TransferResult.file_error; stored = none; hash = s.hash; left = left }
    else record { result = TransferResult.ok; stored = some s.written; hash = s.hash; left = left }

-- What a message of a body stands for.
pub data BodyPart : Type 0 where
  part_data part_end part_abort part_other : BodyPart

unfoldable pub body_part : Msg → BodyPart
body_part file_data = part_data
body_part file_end = part_end
body_part file_abort = part_abort
body_part _ = part_other

-- The variables after a FileData message: `can_write` says whether the disk takes so many bytes.
unfoldable pub receive_data : (ℕ → Bool) → Receiving → Bytes → Receiving
receive_data can_write s payload =
    let ok = s.write_ok && can_write (length s.content + length payload) in
    record {
      content = s.content ++ payload;
      written = if ok then s.written ++ payload else s.written;
      hash = fnv_update s.hash payload;
      write_ok = ok;
    }

-- The loop of recv_file_body. The list ends where `recv` fails.
unfoldable pub recv_loop : (ℕ → Bool) → ℕ → Receiving → List Message → BodyReceived
recv_loop can_write size s [] = broken s []
recv_loop can_write size s (m ∷ rest) =
    let next = recv_loop can_write size (receive_data can_write s m.payload) rest in
    elim (body_part m.type) [
      | part_data ↦ if ltb (size - length s.content) (length m.payload) then broken s rest else next
      | part_end ↦ if length s.content == size then finish_body s false rest else broken s rest
      | part_abort ↦ finish_body s true rest
      | part_other ↦ broken s rest
    ]

-- `opened` says whether `dest` could be created.
unfoldable pub recv_file_body : Bool → (ℕ → Bool) → ℕ → List Message → BodyReceived
recv_file_body opened can_write size messages =
    recv_loop can_write size
      (record { content = []; written = []; hash = fnv_start; write_ok = opened }) messages
