-- ===== src/Server/Replication.antt =====
-- put_on_link of server/cluster.cpp and what apply_replicated does with its messages on the backup.
-- Either end may fail: the link takes `room` messages, and the answer may be lost.
pub mod Agrees
use sis_op.Base.{ℕ, Bool, true, false, Option, none, some, List, [], ◌∷◌, length, if◌then◌else◌}
use sis_op.Base.Keys.{Bytes}
use sis_op.Protocol.Msg
use sis_op.Protocol.Msg.{Message}
use sis_op.Protocol.Writer
use sis_op.Protocol.Carries.{and_write}
use sis_op.Protocol.Reader
use sis_op.Protocol.Reader.{Reader, ◌>>=◌, return}
use sis_op.Files.Info.{FileInfo, write_file_header, read_file_header}
use sis_op.Files.System.{File, FileSystem}
use sis_op.Files.Transfer.{TransferResult, Sent, send_file}
use sis_op.Server.Incoming.{Store, apply_put}

-- The payload of ReplPut: the user, then the header of the file.
unfoldable pub put_header : Bytes → FileInfo → Option Bytes
put_header user info = and_write (Writer.str user) (write_file_header info) []

unfoldable pub read_put : Reader (Bytes × FileInfo)
read_put = do user ← Reader.str; info ← read_file_header; return (user, info)

abbrev pub info_of : Bytes → File → FileInfo
info_of name f = record { name = name; size = length f.content; mtime_ns = f.mtime_ns; hash = 0 }

-- What put_on_link returns, by the result of send_file and the answer; `none` is no answer in time.
unfoldable pub put_result : TransferResult → Option Bool → Bool
put_result TransferResult.not_sent answer = true
put_result TransferResult.connection_lost answer = false
put_result result none = false
put_result TransferResult.ok (some accepted) = accepted
put_result TransferResult.file_error (some accepted) = true

module _ (F : FileSystem) where
  -- A backup: its storage, where that lies, and a fresh temporary path.
  pub record Backup : Type 0 where
    pub root : Bytes
    pub temp : Bytes
    pub store : Store F

  -- apply_replicated for a ReplPut and the messages after it. A malformed header closes the link.
  unfoldable pub receive_put : Backup → List Message → Store F × Option Bool
  receive_put b [] = (b.store, none)
  receive_put b (m ∷ messages) = elim (read_put m.payload) [
    | none ↦ (b.store, none)
    | some ((user, info), rest) ↦ apply_put F b.root b.temp user info messages b.store
  ]

  -- The primary's file goes to the backup: what the backup stores, and whether put_on_link succeeds.
  -- `heard` says whether the answer arrives.
  unfoldable pub exchange_put : ℕ → Bool → Backup → Sent → Store F × Bool
  exchange_put room heard b out =
      let (stored, answer) = receive_put b out.messages in
      (stored, put_result out.result (if heard then answer else none))

  -- `none` is the exception for a name that does not fit in the header.
  unfoldable pub put_on_link :
      ℕ → Bool → Bytes → Bytes → Option File → Backup → Option (Store F × Bool)
  put_on_link room heard user name none b = some (b.store, true)
  put_on_link room heard user name (some f) b = elim (put_header user (info_of name f)) [
    | none ↦ none
    | some header ↦ some (
        exchange_put room heard b
          (send_file room Msg.repl_put header (some (length f.content)) f.content))
  ]
