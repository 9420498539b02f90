-- ===== src/Protocol/Names.antt =====
-- msg_name of common/protocol.cpp.
use Prim.Native.Char.{code as char_code}
use Prim.Native.String.{String}
use sis_op.Base.{[], ◌∷◌}
use sis_op.Base.Keys.{Bytes}
use sis_op.Protocol.Msg.{Msg}

-- The bytes of an ASCII text.
abbrev pub text : String → Bytes
text String.[] = []
text (String.◌∷◌ c s) = char_code c ∷ text s

unfoldable pub msg_name : Msg → Bytes
msg_name Msg.ok = text "Ok"
msg_name Msg.error = text "Error"
msg_name Msg.login = text "Login"
msg_name Msg.logout = text "Logout"
msg_name Msg.ping = text "Ping"
msg_name Msg.list_files = text "ListFiles"
msg_name Msg.upload = text "Upload"
msg_name Msg.download = text "Download"
msg_name Msg.delete = text "Delete"
msg_name Msg.login_ok = text "LoginOk"
msg_name Msg.redirect = text "Redirect"
msg_name Msg.pong = text "Pong"
msg_name Msg.file_list = text "FileList"
msg_name Msg.file = text "File"
msg_name Msg.sync_attach = text "SyncAttach"
msg_name Msg.push_file = text "PushFile"
msg_name Msg.push_delete = text "PushDelete"
msg_name Msg.server_list = text "ServerList"
msg_name Msg.file_data = text "FileData"
msg_name Msg.file_end = text "FileEnd"
msg_name Msg.file_abort = text "FileAbort"
msg_name Msg.join = text "Join"
msg_name Msg.join_ok = text "JoinOk"
msg_name Msg.election = text "Election"
msg_name Msg.coordinator = text "Coordinator"
msg_name Msg.replica_attach = text "ReplicaAttach"
msg_name Msg.replica_manifest = text "ReplicaManifest"
msg_name Msg.repl_put = text "ReplPut"
msg_name Msg.repl_delete = text "ReplDelete"
msg_name Msg.membership = text "Membership"
msg_name Msg.heartbeat = text "Heartbeat"
msg_name Msg.repl_account = text "ReplAccount"
msg_name Msg.status_request = text "StatusRequest"
msg_name Msg.status = text "Status"
msg_name Msg.notice = text "Notice"
msg_name (Msg.raw n) = text "Unknown"
