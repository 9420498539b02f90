-- ===== src/Client/Remote.antt =====
-- What the synchronization asks of the command connection: upload, download, remove_remote and
-- list_remote of client/client.cpp, each with the result that transact gives it. The exchanges are arbitrary:
-- nothing is assumed of what the server makes of them.
use sis_op.Base.{Option}
use sis_op.Base.Keys.{Bytes, bytes_key}
use sis_op.Connection.{CallResult}
use sis_op.Files.System.{File}

pub record Remote : Type 1 where
  pub State : Type 0
  -- The local file as it is read while it is sent; `none` where it cannot be opened.
  pub upload : State → Bytes → Option File → State × CallResult
  pub download : State → Bytes → State × CallResult × Option File
  pub remove : State → Bytes → State × CallResult
