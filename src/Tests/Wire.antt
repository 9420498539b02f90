-- ===== src/Tests/Wire.antt =====
-- Messages, frames and transfers.
use sis_op.Base.{◌≡◌, refl, true, false, some, List, [], ◌∷◌, ◌++◌, length, arith}
use sis_op.Base.Int.{pos}
use sis_op.Base.Keys.{Bytes}
use sis_op.Protocol.Msg.{Msg, Message, code, from_code}
use sis_op.Protocol.Names.{text}
use sis_op.Protocol.Reader
use sis_op.Connection.{RecvStatus, frame, read_header, recv_payload, recv}
use sis_op.Connection.Frames.{IsSendable, recv-frame}
use sis_op.Files.Info.{FileInfo}
use sis_op.Files.Hash.{fnv}
use sis_op.Files.Transfer.{
  TransferResult, recv_loop, body_part, receive_data, finish_body, message, recv_file_body,
}
use sis_op.Files.Transfer.Delivery.{always, recv_file_body-ok}

abbrev ping : Bytes
ping = 1 ∷ 2 ∷ []

ping-IsSendable : IsSendable Msg.error
unfolding code from_code
ping-IsSendable = record { canonical = refl; small = omega arith }

recv-frame_example :
    (f : Bytes) × (frame Msg.error ping ≡ some f)
    × (recv false (f ++ (7 ∷ [])) ≡ record {
      status = RecvStatus.ok;
      message = some (record { type = Msg.error; payload = ping });
      left = 7 ∷ [];
    })
recv-frame_example = recv-frame Msg.error ping (7 ∷ []) false ping-IsSendable (omega arith)

-- A frame of type 2 with one byte.
abbrev small_frame : Bytes
small_frame = 0 ∷ 2 ∷ 0 ∷ 0 ∷ 0 ∷ 0 ∷ 0 ∷ 1 ∷ 9 ∷ []

recv-small_frame :
    (recv true small_frame).message ≡ some (record { type = from_code 2; payload = 9 ∷ [] })
unfolding recv read_header recv_payload Reader.u16 Reader.u32 Reader.take_bytes
recv-small_frame = refl

abbrev notes : FileInfo
notes = record { name = text "notes.txt"; size = 3; mtime_ns = pos 5; hash = 12 }

abbrev two_parts : List Message
two_parts =
    message Msg.file_data (1 ∷ 2 ∷ [])
    ∷ message Msg.file_data (3 ∷ [])
    ∷ message Msg.file_end []
    ∷ []

two_parts-ok : (recv_file_body true always 3 two_parts).result ≡ TransferResult.ok
unfolding recv_file_body recv_loop body_part receive_data finish_body
two_parts-ok = refl

recv_file_body-ok_example :
    (content : Bytes) × ((recv_file_body true always 3 two_parts).stored ≡ some content)
    × ((recv_file_body true always 3 two_parts).hash ≡ fnv content)
    × (length content ≡ 3)
recv_file_body-ok_example = recv_file_body-ok true always 3 two_parts two_parts-ok
