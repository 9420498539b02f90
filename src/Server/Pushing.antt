-- ===== src/Server/Pushing.antt =====
-- serve_sync, push_file, push_delete, push_notice and push_server_list of server/server.cpp: what goes out on
-- the sync connections. `room` says how many messages a connection takes before it fails.
pub mod Notices
use sis_op.Base.{
  ℕ, Bool, true, false, not, ◌&&◌, Option, none, some, List, [], ◌∷◌, ◌++◌, map, and_then, ◌==◌,
  if◌then◌else◌,
}
use sis_op.Base.Keys.{Bytes}
use sis_op.Protocol.Msg
use sis_op.Protocol.Msg.{Message}
use sis_op.Protocol.Names.{text}
use sis_op.Protocol.Address.{ServerAddress, write_servers}
use sis_op.Protocol.Writer
use sis_op.Files.Transfer.{TransferResult, Sent, message, send_file}
use sis_op.Server.Sessions.{
  SessionManager, sync_connections, all_sync_connections, attach_sync, detach_sync,
}

-- The messages that one connection is sent, and whether it is shut down after them.
pub record Push : Type 0 where
  pub conn : ℕ
  pub messages : List Message
  pub shut : Bool

abbrev is_lost : TransferResult → Bool
is_lost TransferResult.connection_lost = true
is_lost _ = false

-- A file of this content to some connections; `none` is a file that cannot be opened.
unfoldable pub push_file_to : (ℕ → ℕ) → Bytes → Option ℕ → Bytes → List ℕ → List Push
push_file_to room header size content [] = []
push_file_to room header size content (conn ∷ conns) =
    let out = send_file (room conn) Msg.push_file header size content in
    record { conn = conn; messages = out.messages; shut = is_lost out.result }
    ∷ push_file_to room header size content conns

unfoldable pub push_file :
    (ℕ → ℕ) → Bytes → Bytes → Bytes → Option ℕ → Bytes → SessionManager → List Push
push_file room user except header size content sessions =
    push_file_to room header size content (sync_connections user except sessions)

-- One message to a connection; the result is used by push_delete alone.
abbrev sent_to : (ℕ → ℕ) → Bool → Message → ℕ → Push
sent_to room shuts m conn =
    let full = room conn == 0 in
    record { conn = conn; messages = if full then [] else m ∷ []; shut = shuts && full }

unfoldable pub send_all : (ℕ → ℕ) → Bool → Message → List ℕ → List Push
send_all room shuts m conns = map (sent_to room shuts m) conns

unfoldable pub push_delete : (ℕ → ℕ) → Bytes → Bytes → Bytes → SessionManager → Option (List Push)
push_delete room user path except sessions = elim (Writer.str path []) [
  | none ↦ none
  | some payload ↦
      some (
        send_all room true (message Msg.push_delete payload)
          (sync_connections user except sessions))
]

unfoldable pub push_notice : Bool → (ℕ → ℕ) → Bytes → SessionManager → Option (List Push)
push_notice primary room notice sessions = elim (Writer.str notice []) [
  | none ↦ if primary then none else some []
  | some payload ↦ some (
      if primary
      then send_all room false (message Msg.notice payload) (all_sync_connections sessions)
      else [])
]

unfoldable pub push_server_list : (ℕ → ℕ) → List ServerAddress → SessionManager → Option (List Push)
push_server_list room servers sessions = elim (write_servers servers []) [
  | none ↦ none
  | some payload ↦
      some (send_all room false (message Msg.server_list payload) (all_sync_connections sessions))
]

abbrev pub push_char : ℕ → List Bytes → List Bytes
push_char c [] = (c ∷ []) ∷ []
push_char c (line ∷ rest) = (c ∷ line) ∷ rest

-- The loop of serve_sync over the text of the problems: 10 is the line feed.
unfoldable pub cut_lines : Bytes → List Bytes
cut_lines [] = []
cut_lines (c ∷ cs) = if c == 10 then [] ∷ cut_lines cs else push_char c (cut_lines cs)

abbrev add_notice : Option Bytes → Option (List Message) → Option (List Message)
add_notice (some payload) (some rest) = some (message Msg.notice payload ∷ rest)
add_notice _ _ = none

-- One Notice for each line; `none` is the exception for a line that does not fit.
unfoldable pub notices : List Bytes → Option (List Message)
notices [] = some []
notices (line ∷ rest) = add_notice (Writer.str line []) (notices rest)

abbrev after_ok : Option (List Message) → Option (List Message)
after_ok none = none
after_ok (some rest) = some (message Msg.ok [] ∷ rest)

abbrev unknown_session : Option (List Message)
unknown_session =
    and_then (Writer.str (text "unknown session") [])
      (λ payload. some (message Msg.error payload ∷ []))

-- serve_sync under the send lock: the sessions, and what goes out; `none` is an exception.
unfoldable pub serve_sync :
    Bool → Bytes → ℕ → Bytes → SessionManager → SessionManager × Option (List Message)
serve_sync primary token conn problems sessions =
    let (attached, known) = attach_sync token conn sessions in
    if primary
    then (if known
        then (attached, after_ok (notices (cut_lines problems)))
        else (sessions, unknown_session))
    else (sessions, unknown_session)
