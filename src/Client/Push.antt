-- ===== src/Client/Push.antt =====
-- handle_push of client/client.cpp: what the client does with a message on its sync connection. The state
-- file and the messages to the user are left out.
pub mod Failed
pub mod Delivered
use sis_op.Base.{ℕ, Bool, true, false, Option, none, some, List, [], ◌∷◌, if◌then◌else◌}
use sis_op.Base.Keys.{Bytes}
use sis_op.Protocol.Msg
use sis_op.Protocol.Msg.{Msg, Message}
use sis_op.Protocol.Reader
use sis_op.Protocol.Address.{ServerAddress, read_servers}
use sis_op.Files.Info.{FileInfo, read_file_header}
use sis_op.Files.Names.{join_path, is_valid_path}
use sis_op.Files.System.{FileSystem, remove_empty_parents}
use sis_op.Files.Transfer.{TransferResult, recv_file_body}
use sis_op.Files.Transfer.Delivery.{always}
use sis_op.Server.Incoming.{receive_to}
use sis_op.Client.SyncState.{SyncState, forget}
use sis_op.Client.Install.{install}

module _ (F : FileSystem) where
  open F use {Disk, unlink}

  -- sync_dir, the sync state and the known servers.
  pub record Synced : Type 0 where
    pub disk : Disk
    pub state : SyncState
    pub servers : List ServerAddress

  -- sync_dir's path, the fuel for conflict names, their time stamp, and a fresh temporary path.
  pub record Place : Type 0 where
    pub root : Bytes
    pub fuel : ℕ
    pub stamp : Bytes
    pub temp : Bytes

  unfoldable pub install_push : Place → FileInfo → Synced → Synced
  install_push c info w =
      let (d, state) = install F c.fuel c.stamp w.disk c.root w.state c.temp info.name info in
      record w { disk = d; state = state }

  -- A received file that is not wanted, or not whole.
  unfoldable pub drop_push : Place → Synced → Synced
  drop_push c w = record w { disk = (unlink w.disk c.temp).0 }

  -- The end of a PushFile, when the body has arrived or not.
  unfoldable pub finish_push : Place → FileInfo → Synced → TransferResult → Synced × Bool
  finish_push c info w TransferResult.connection_lost = (w, false)
  finish_push c info w TransferResult.ok =
      (if is_valid_path info.name then install_push c info w else drop_push c w, true)
  finish_push c info w _ = (drop_push c w, true)

  unfoldable pub handle_push_file : Place → FileInfo → List Message → Synced → Synced × Bool
  handle_push_file c info body w =
      let (d, result) = receive_to F w.disk c.temp info.size body in
      let hash = (recv_file_body true always info.size body).hash in
      finish_push c (record info { hash = hash }) (record w { disk = d }) result

  unfoldable pub handle_push_delete : Place → Bytes → Synced → Synced
  handle_push_delete c name w =
      let (d, removed) = unlink w.disk (join_path c.root name) in
      if is_valid_path name
      then record w {
        disk = if removed then remove_empty_parents F d c.root name else d;
        state = forget name w.state;
      }
      else w

  -- False says that the connection cannot be trusted any more. A ProtocolError is caught here.
  unfoldable pub handle_push : Place → Msg → Bytes → List Message → Synced → Synced × Bool
  handle_push c Msg.push_file payload body w = elim (read_file_header payload) [
    | none ↦ (w, false)
    | some (info, rest) ↦ handle_push_file c info body w
  ]
  handle_push c Msg.push_delete payload body w = elim (Reader.str payload) [
    | none ↦ (w, false)
    | some (name, rest) ↦ (handle_push_delete c name w, true)
  ]
  handle_push c Msg.server_list payload body w = elim (read_servers payload) [
    | none ↦ (w, false)
    | some (servers, rest) ↦ (record w { servers = servers }, true)
  ]
  handle_push c Msg.notice payload body w = elim (Reader.str payload) [
    | none ↦ (w, false)
    | some (text, rest) ↦ (w, true)
  ]
  handle_push c _ payload body w = (w, true)
