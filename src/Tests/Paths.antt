-- ===== src/Tests/Paths.antt =====
-- Names, paths and names of conflicted copies.
use sis_op.Base.{◌≡◌, ◌↔◌, refl, true, some, [], arith}
use sis_op.Base.Keys.{Bytes, bytes_key}
use sis_op.Base.Dict.{lookup}
use sis_op.Protocol.Names.{text}
use sis_op.Files.Names.{is_valid_path, join_path, parent_path, base_name, cut_last}
use sis_op.Files.Names.Valid.{IsPath, is_valid_path_iff}
use sis_op.Server.Sessions.{is_none}
use sis_op.Files.System.{stat_file}
use sis_op.Files.System.Memory.{memory}
use sis_op.Client.ConflictName.{
  tag, copy_name, last_dot, extension_at, candidate, conflict_name, find_free, FirstFree,
  conflict_name_total,
}

abbrev notes : Bytes
notes = text "docs/notes.txt"

is_valid_path_iff_example : (is_valid_path notes ≡ true) ↔ IsPath notes
is_valid_path_iff_example = is_valid_path_iff notes

abbrev stamp : Bytes
stamp = text "2026-10-20 14.03.07"

conflict_name_total_example :
    (copy : Bytes) × (conflict_name memory 1 [] (text "sync") notes stamp ≡ some copy)
    × FirstFree memory [] (text "sync") notes stamp 1 copy
unfolding lookup
conflict_name_total_example =
    conflict_name_total memory 1 [] (text "sync") notes stamp 0 refl (omega arith)

conflict_name_run :
    conflict_name memory 1 [] (text "sync") notes stamp
    ≡ some (text "docs/notes (conflicted copy 2026-10-20 14.03.07).txt")
unfolding conflict_name find_free candidate copy_name tag last_dot extension_at parent_path
    base_name cut_last join_path stat_file is_none lookup
conflict_name_run = refl
