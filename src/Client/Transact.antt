-- ===== src/Client/Transact.antt =====
-- transact, mark_disconnected, wait_for_connection and the exchanges of client/client.cpp: upload, download,
-- remove_remote and list_remote. What arrives is an argument: `none` where nothing does.
pub mod Failed
pub mod Listed
use sis_op.Base.{
  ℕ, Bool, true, false, not, ◌&&◌, ◌||◌, Option, none, some, List, [], ◌∷◌, ◌++◌, length, ◌==◌,
  if◌then◌else◌,
}
use sis_op.Base.Keys.{Bytes}
use sis_op.Protocol.Msg
use sis_op.Protocol.Msg.{Msg, Message}
use sis_op.Protocol.Names.{text}
use sis_op.Protocol.Reader
use sis_op.Protocol.Reader.{Reader, ◌>>=◌, return}
use sis_op.Connection.{CallResult, error_reason}
use sis_op.Files.Info.{FileInfo, read_file_header, read_file_info}
use sis_op.Files.Transfer.{TransferResult, recv_file_body, BodyReceived}
use sis_op.Files.Transfer.Delivery.{always}

-- What state_mutex_ guards of the connection: a command connection is known by a number.
pub record Line : Type 0 where
  pub connected : Bool
  pub cmd : ℕ

abbrev is_current : Option ℕ → ℕ → Bool
is_current none current = true
is_current (some cmd) current = cmd == current

-- `none` stands for whatever connection there is.
unfoldable pub mark_disconnected : Option ℕ → Line → Line
mark_disconnected cmd l =
    if l.connected && is_current cmd l.cmd then record l { connected = false } else l

-- The end of wait_for_connection, after the wait.
unfoldable pub wait_for_connection : Bool → Line → Option ℕ
wait_for_connection stopping l = if l.connected && not stopping then some l.cmd else none

-- The result of an exchange, with the error that it sets.
pub record Exchanged {ℓ} (A : Type ℓ) : Type ℓ where
  pub result : CallResult
  pub error : Bytes
  pub got : Option A

abbrev pub failed {ℓ} : {A : Type ℓ} → Exchanged A
failed = record { result = CallResult.failed; error = []; got = none }

abbrev pub rejected {ℓ} : {A : Type ℓ} → Bytes → Exchanged A
rejected reason = record { result = CallResult.rejected; error = reason; got = none }

abbrev pub done {ℓ} : {A : Type ℓ} → A → Exchanged A
done a = record { result = CallResult.ok; error = []; got = some a }

-- The end of transact.
unfoldable pub settle {ℓ} : {A : Type ℓ} → ℕ → Exchanged A → Line → CallResult → Line × Exchanged A
settle cmd e l CallResult.failed = (
  mark_disconnected (some cmd) l,
  record {
    result = CallResult.failed;
    error = if length e.error == 0 then text "lost the connection to the server" else e.error;
    got = e.got;
  },
)
settle cmd e l result = (l, record e { result = result })

-- The exchange's ProtocolError, `none`, is a failure.
abbrev pub caught {ℓ} : {A : Type ℓ} → Option (Exchanged A) → Exchanged A
caught none = failed
caught (some e) = e

-- `l` is the state before the exchange and `after` the one that other threads leave at its end.
unfoldable pub transact {ℓ} :
    {A : Type ℓ} → Bool → Line → Line → Option (Exchanged A) → Line × Exchanged A
transact stopping l after exchange = elim (wait_for_connection stopping l) [
  | none ↦ (
    l,
    record { result = CallResult.failed; error = text "not connected to a server"; got = none },
  )
  | some cmd ↦ settle cmd (caught exchange) after (caught exchange).result
]

abbrev is_ok : Msg → Bool
is_ok Msg.ok = true
is_ok _ = false

-- The reply to an upload.
unfoldable pub upload_reply : TransferResult → Bytes → Option Message → Exchanged (Unit {0})
upload_reply sent path none = failed
upload_reply sent path (some reply) =
    if is_ok reply.type
    then done tt
    else rejected (elim sent [
      | TransferResult.file_error ↦ path ++ text " changed while it was being read"
      | _ ↦ error_reason reply
    ])

unfoldable pub upload : TransferResult → Bytes → Option Message → Exchanged (Unit {0})
upload TransferResult.not_sent path reply = rejected (text "cannot read " ++ path)
upload TransferResult.connection_lost path reply = failed
upload sent path reply = upload_reply sent path reply

-- The body of a download.
unfoldable pub download_body : Bytes → FileInfo → TransferResult → ℕ → Exchanged FileInfo
download_body name info TransferResult.ok hash = done (record info { hash = hash })
download_body name info TransferResult.connection_lost hash = failed
download_body name info _ hash =
    rejected (text "the download of " ++ (name ++ text " was not completed"))

-- The reply to a download and the messages behind it; `none` is a ProtocolError.
unfoldable pub download_reply : Bytes → Msg → Message → List Message → Option (Exchanged FileInfo)
download_reply name Msg.error reply body = some (rejected (error_reason reply))
download_reply name Msg.file reply body = elim (read_file_header reply.payload) [
  | none ↦ none
  | some (info, rest) ↦
      let received = recv_file_body true always info.size body in
      some (download_body name info received.result received.hash)
]
download_reply name _ reply body = some failed

unfoldable pub download : Bytes → Option Message → List Message → Option (Exchanged FileInfo)
download name none body = some failed
download name (some reply) body = download_reply name reply.type reply body

-- `call` for a request and the type of the answer wanted.
unfoldable pub call_reply : (Msg → Bool) → Option Message → Exchanged Message
call_reply wanted none = failed
call_reply wanted (some reply) =
    if wanted reply.type then done reply else rejected (error_reason reply)

unfoldable pub remove_remote : Option Message → Exchanged Message
remove_remote reply = call_reply is_ok reply

abbrev is_file_list : Msg → Bool
is_file_list Msg.file_list = true
is_file_list _ = false

unfoldable pub read_file_list : Reader (List FileInfo)
read_file_list = do count ← Reader.u32; Reader.repeat count read_file_info

abbrev listed : Option (List FileInfo × Bytes) → Option (Exchanged (List FileInfo))
listed none = none
listed (some (files, rest)) = some (done files)

-- list_remote; `none` is a ProtocolError.
unfoldable pub list_remote : Option Message → Option (Exchanged (List FileInfo))
list_remote none = some failed
list_remote (some reply) =
    if is_file_list reply.type
    then listed (read_file_list reply.payload)
    else some (rejected (error_reason reply))
