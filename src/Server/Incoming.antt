-- ===== src/Server/Incoming.antt =====
-- A file that arrives at a server: recv_file_body of common/files.cpp into a temporary file, and the
-- commit that follows it in server/server.cpp and server/cluster.cpp. Temporary paths are arguments.
pub mod Stored
use sis_op.Base.{ℕ, Bool, true, false, ◌&&◌, Option, none, some, List, if◌then◌else◌}
use sis_op.Base.Int.{ℤ}
use sis_op.Base.Keys.{Bytes}
use sis_op.Protocol.Msg.{Message}
use sis_op.Files.Info.{FileInfo}
use sis_op.Files.Names.{is_valid_path, is_valid_username}
use sis_op.Files.System.{FileSystem}
use sis_op.Files.Transfer.{TransferResult, recv_file_body}
use sis_op.Files.Transfer.Delivery.{always}
use sis_op.Server.Storage.{HashCache, commit}

module _ (F : FileSystem) where
  open F use {Disk, write, unlink}

  -- The storage of a server.
  pub record Store : Type 0 where
    pub disk : Disk
    pub cache : HashCache

  -- recv_file_body into a file. A file that cannot be written whole is removed like an aborted one.
  unfoldable pub receive_to : Disk → Bytes → ℕ → List Message → Disk × TransferResult
  receive_to d temp size messages =
      let body = recv_file_body true always size messages in
      elim body.stored [
        | none ↦ ((unlink d temp).0, body.result)
        | some content ↦
            if (write d temp content).1
            then ((write d temp content).0, body.result)
            else ((unlink (write d temp content).0 temp).0, TransferResult.file_error)
      ]

  -- The commit of a received file, which is removed if that fails.
  unfoldable pub store_file : Bytes → Bytes → Bytes → FileInfo → Store → Store × Bool
  store_file root temp user info s =
      let (d, cache, stored) = commit F s.disk root user info.name temp info.mtime_ns s.cache in
      if stored
      then (record { disk = d; cache = cache }, true)
      else (record { disk = (unlink d temp).0; cache = cache }, false)

  -- A received file that is not wanted.
  abbrev pub discard : Bytes → Store → Store
  discard temp s = record s { disk = (unlink s.disk temp).0 }

  -- The ReplPut branch of apply_replicated after its header: whether the answer is Ok; none, if the
  -- link is lost.
  unfoldable pub apply_put :
      Bytes → Bytes → Bytes → FileInfo → List Message → Store → Store × Option Bool
  apply_put root temp user info messages s =
      let (d, result) = receive_to s.disk temp info.size messages in
      let received = record s { disk = d } in
      let (stored, ok) = store_file root temp user info received in
      elim result [
        | TransferResult.connection_lost ↦ (received, none)
        | TransferResult.ok ↦
            if is_valid_username user && is_valid_path info.name
            then (stored, some ok)
            else (discard temp received, some false)
        | _ ↦ (discard temp received, some false)
      ]
