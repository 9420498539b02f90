-- ===== src/Client/Push/Delivered.antt =====
-- push_file of server/server.cpp against handle_push of client/client.cpp: a file that is pushed is installed.
use sis_op.Base.Keys.{Bytes, bytes_key}
use sis_op.Protocol.Msg.{Msg}
use sis_op.Files.System.{FileSystem}
use sis_op.Client.Push.{Synced, Place}

module _ (F : FileSystem) where
  open F use {Disk, write}

  -- The client after the whole body is written to the temporary file.
  abbrev pub received : Place F → Bytes → Synced F → Synced F
  received c content w = record w { disk = (write w.disk c.temp content).0 }
