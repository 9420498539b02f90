-- ===== src/Server/Requests.antt =====
-- handle_request of server/server.cpp and the handlers that it calls. What a handler does outside the
-- storage is the list of its effects, in their order; a replication is the call on the cluster.
pub mod Loop
pub mod Served
pub mod Told
use sis_op.Base.{
  ℕ, Bool, true, false, not, ◌&&◌, Option, none, some, List, [], ◌∷◌, ◌++◌, length, ltb, ◌==◌,
  if◌then◌else◌, and_then,
}
use sis_op.Base.Keys.{Bytes}
use sis_op.Protocol.Msg
use sis_op.Protocol.Msg.{Msg, Message}
use sis_op.Protocol.Names.{text, msg_name}
use sis_op.Protocol.Writer
use sis_op.Protocol.Carries.{WriterStep, write_each}
use sis_op.Protocol.Reader
use sis_op.Protocol.Reader.{Reader, ◌>>=◌, return}
use sis_op.Connection.{max_payload}
use sis_op.Files.Info.{FileInfo, write_file_header, write_file_info, read_file_header}
use sis_op.Files.Names.{is_valid_path}
use sis_op.Files.System.{File, FileSystem, stat_file}
use sis_op.Files.Transfer.{TransferResult, Sent, send_file}
use sis_op.Server.Sessions.{SessionManager, sync_connections}
use sis_op.Server.Storage.{file_path, list_files, remove}
use sis_op.Server.Incoming.{Store, receive_to, store_file, discard}

pub data Effect : Type 0 where
  reply : Msg → Bytes → Effect
  refuse : Bytes → Effect
  send : List Message → Effect
  replicate_put replicate_delete : Bytes → Bytes → Effect
  push_file push_delete : List ℕ → Bytes → Effect

-- The sessions that a change is not pushed to: the one that a synchronization came from.
unfoldable pub except : ℕ → Bytes → Bytes
except origin token = if origin == 1 then token else []

unfoldable pub read_upload : Reader (ℕ × FileInfo)
read_upload = do origin ← Reader.u8; info ← read_file_header; return (origin, info)

unfoldable pub read_delete : Reader (ℕ × Bytes)
read_delete = do origin ← Reader.u8; path ← Reader.str; return (origin, path)

-- The bytes of a file list.
unfoldable pub file_list : List FileInfo → Option Bytes
file_list files = write_each write_file_info files (Writer.u32 (length files) [])

abbrev not_stored : Bytes → Bytes
not_stored name =
    text "the server could not store "
    ++ (name ++ text " (a file and a folder can't have the same name)")

abbrev content_of : Option File → Bytes
content_of none = []
content_of (some f) = f.content

abbrev size_of : Option FileInfo → Option ℕ
size_of none = none
size_of (some info) = some info.size

abbrev pub header_of : Option FileInfo → WriterStep
header_of none prefix = some prefix
header_of (some info) prefix = write_file_header info prefix

module _ (F : FileSystem) where
  open F use {Disk, read, unlink}

  -- What is fixed for a request: the storage's root, a fresh temporary path, the user, the session's
  -- token, the other sessions, how many messages the connection takes before it fails, and the files
  -- that the walk through the user's folder finds.
  pub record Request : Type 0 where
    pub root : Bytes
    pub temp : Bytes
    pub user : Bytes
    pub token : Bytes
    pub sessions : SessionManager
    pub room : ℕ
    pub walk : List FileInfo

  pub record Outcome : Type 0 where
    pub store : Store F
    pub effects : List Effect
    pub keep_going : Bool

  abbrev alive : Request → Bool
  alive q = ltb 0 q.room

  -- send_error, whose result the handler returns.
  unfoldable pub refused : Request → Store F → Bytes → Outcome
  refused q s reason = record { store = s; effects = refuse reason ∷ []; keep_going = alive q }

  -- A ProtocolError, or a lost connection.
  unfoldable pub dropped : Store F → Outcome
  dropped s = record { store = s; effects = []; keep_going = false }

  -- The end of a change that was made: the backups hear of it, then the client, then the other
  -- sessions, these only if the reply went out.
  unfoldable pub done : Request → Store F → Effect → Effect → Outcome
  done q s replicate push = record {
    store = s;
    effects = replicate ∷ reply Msg.ok [] ∷ (if alive q then push ∷ [] else []);
    keep_going = alive q;
  }

  unfoldable pub accept_upload : Request → Store F → ℕ → FileInfo → Outcome
  accept_upload q s origin info =
      let (s', stored) = store_file F q.root q.temp q.user info s in
      if stored
      then done q s' (replicate_put q.user info.name)
          (push_file (sync_connections q.user (except origin q.token) q.sessions) info.name)
      else refused q s' (not_stored info.name)

  unfoldable pub upload_body : Request → Store F → ℕ → FileInfo → List Message → Outcome
  upload_body q s origin info messages =
      let (d, result) = receive_to F s.disk q.temp info.size messages in
      let received : Store F = record s { disk = d } in
      elim result [
        | TransferResult.connection_lost ↦ dropped received
        | TransferResult.ok ↦
            if is_valid_path info.name
            then accept_upload q received origin info
            else refused q (discard F q.temp received) (text "invalid file name")
        | _ ↦ refused q received (text "the upload was not completed")
      ]

  unfoldable pub handle_upload : Request → Store F → Bytes → List Message → Outcome
  handle_upload q s payload messages = elim (read_upload payload) [
    | none ↦ dropped s
    | some ((origin, info), rest) ↦ upload_body q s origin info messages
  ]

  unfoldable pub delete_path : Request → Store F → ℕ → Bytes → Outcome
  delete_path q s origin path =
      let (d, cache, existed) = remove F s.disk q.root q.user path s.cache in
      let s' : Store F = record { disk = d; cache = cache } in
      if existed
      then done q s' (replicate_delete q.user path)
          (push_delete (sync_connections q.user (except origin q.token) q.sessions) path)
      else refused q s' (text "no such file on the server")

  unfoldable pub handle_delete : Request → Store F → Bytes → Outcome
  handle_delete q s payload = elim (read_delete payload) [
    | none ↦ dropped s
    | some ((origin, path), rest) ↦
        if is_valid_path path
        then delete_path q s origin path
        else refused q s (text "invalid file name")
  ]

  unfoldable pub sent : Request → Store F → Sent → Outcome
  sent q s out = elim out.result [
    | TransferResult.not_sent ↦ refused q s (text "no such file on the server")
    | TransferResult.connection_lost ↦ record {
      store = s;
      effects = send out.messages ∷ [];
      keep_going = false;
    }
    | _ ↦ record { store = s; effects = send out.messages ∷ []; keep_going = true }
  ]

  -- The messages of send_file for the user's file, with the header that names it.
  unfoldable pub file_messages : Request → Store F → Bytes → Option Sent
  file_messages q s path =
      let file = file_path q.root q.user path in
      let info = stat_file F s.disk file path false in
      elim (header_of info []) [
        | none ↦ none
        | some header ↦
            some (send_file q.room Msg.file header (size_of info) (content_of (read s.disk file)))
      ]

  unfoldable pub handle_download : Request → Store F → Bytes → Outcome
  handle_download q s payload = elim (Reader.str payload) [
    | none ↦ dropped s
    | some (path, rest) ↦
        let out = file_messages q s path in
        if is_valid_path path
        then elim out [ none ↦ dropped s | some messages ↦ sent q s messages ]
        else refused q s (text "invalid file name")
  ]

  unfoldable pub reply_list : Request → Store F → Option Bytes → Outcome
  reply_list q s none = dropped s
  reply_list q s (some payload) =
      if ltb max_payload (length payload)
      then refused q s (text "too many files to list")
      else record { store = s; effects = reply Msg.file_list payload ∷ []; keep_going = alive q }

  unfoldable pub handle_list : Request → Store F → Outcome
  handle_list q s =
      let (files, cache) = list_files F s.disk q.root q.user q.walk s.cache in
      reply_list q (record s { cache = cache }) (file_list files)

  -- `messages` are those that follow the request.
  unfoldable pub handle_request : Request → Store F → Message → List Message → Outcome
  handle_request q s m messages = elim m.type [
    | Msg.ping ↦ record { store = s; effects = reply Msg.pong [] ∷ []; keep_going = alive q }
    | Msg.logout ↦ record { store = s; effects = reply Msg.ok [] ∷ []; keep_going = false }
    | Msg.list_files ↦ handle_list q s
    | Msg.upload ↦ handle_upload q s m.payload messages
    | Msg.download ↦ handle_download q s m.payload
    | Msg.delete ↦ handle_delete q s m.payload
    | _ ↦ record {
      store = s;
      effects = refuse (text "unexpected " ++ msg_name m.type) ∷ [];
      keep_going = false;
    }
  ]
