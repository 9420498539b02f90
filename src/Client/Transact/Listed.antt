-- ===== src/Client/Transact/Listed.antt =====
-- list_remote against handle_list of the server.
use sis_op.Base.{◌^◌, ◌<◌, ◌≡◌, refl, some, List, length, All}
use sis_op.Base.Keys.{Bytes}
use sis_op.Protocol.Msg
use sis_op.Protocol.Writer
use sis_op.Protocol.Reader
use sis_op.Protocol.Reader.{◌>>=◌}
use sis_op.Protocol.Carries.{
  Carries, Carries-bind, Carries-u32, Carries-each, Carries-whole, write_each,
}
use sis_op.Files.Info.{
  FileInfo, FitsInfo, write_file_info, read_file_info, read_file_info-write_file_info,
}
use sis_op.Files.Transfer.{message}
use sis_op.Server.Requests.{file_list}
use sis_op.Client.Transact.{done, read_file_list, list_remote}

file_list-Carries :
    (files : List FileInfo)
    → length files < 2 ^ 32
    → All FitsInfo files
    → Carries
        (λ buf. write_each write_file_info files (Writer.u32 (length files) buf))
        read_file_list
        files
unfolding read_file_list
file_list-Carries files few fits =
    Carries-bind {w = λ buf. some (Writer.u32 (length files) buf)}
      {v = write_each write_file_info files} (λ count. Reader.repeat count read_file_info)
      (Carries-u32 (length files) few)
      (Carries-each FitsInfo write_file_info read_file_info read_file_info-write_file_info files
        fits)

-- Fewer than 2 ^ 32 files whose infos fit their fields: the FileList that the server writes of them is
-- the list that list_remote gives.
pub list_remote-file_list :
    (files : List FileInfo) (payload : Bytes)
    → length files < 2 ^ 32
    → All FitsInfo files
    → file_list files ≡ some payload
    → list_remote (some (message Msg.file_list payload)) ≡ some (done files)
unfolding list_remote file_list
list_remote-file_list files payload few fits wrote =
    rw (Carries-whole payload (file_list-Carries files few fits) wrote) refl
