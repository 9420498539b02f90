-- ===== src/Tests/Sync.antt =====
-- The client's synchronization with an in-memory server.
use sis_op.Base.{ℕ, ◌≡◌, ◌≢◌, ap, arith, eq_of_some, refl, true, false, Option, none, some, [], ◌∷◌}
use sis_op.Base.Int.{pos}
use sis_op.Base.Keys.{Bytes, same, bytes_key, bytes_cmp}
use sis_op.Base.Dict.{Dict, lookup, insert, erase}
use sis_op.Protocol.Names.{text}
use sis_op.Connection.{CallResult}
use sis_op.Files.Info.{FileInfo, version}
use sis_op.Server.Sessions.{is_none}
use sis_op.Files.Hash.{fnv, fnv_update, fnv_byte}
use sis_op.Files.Names.{join_path, parent_path, cut_last, base_name}
use sis_op.Files.System.{File, stat_file}
use sis_op.Files.System.Memory.{memory, move, memory-IsPosix, memory-IsWilling}
use sis_op.Client.SyncState.{get}
use sis_op.Client.Decide.{merge, decide, outcome, decide-merge, act, push, changed}
use sis_op.Client.ConflictName.{
  conflict_name, find_free, candidate, copy_name, tag, extension_at, last_dot,
}
use sis_op.Client.Install.{install}
use sis_op.Client.Install.Unsynced.{content_version, Unsynced}
use sis_op.Client.Install.Keeps.{install-read_copy}
use sis_op.Client.Remote.{Remote}
use sis_op.Client.Reconcile.{World, Settings, perform, push_file}
use sis_op.Client.Reconcile.Steps.{Merged, perform-merge}

abbrev answer_upload : Dict Bytes File → Bytes → Option File → Dict Bytes File × CallResult
answer_upload s name none = (s, CallResult.rejected)
answer_upload s name (some f) = (insert name f s, CallResult.ok)

abbrev fetch : Dict Bytes File → Option File → Dict Bytes File × CallResult × Option File
fetch s none = (s, CallResult.rejected, none)
fetch s (some f) = (s, CallResult.ok, some f)

-- A server that answers every exchange.
abbrev server : Remote
server = record {
  State = Dict Bytes File;
  upload = answer_upload;
  download = λ s name. fetch s (lookup name s);
  remove = λ s name. (erase name s, CallResult.ok);
}

abbrev here : File
here = record { content = 1 ∷ []; mtime_ns = pos 5 }

abbrev there : File
there = record { content = 2 ∷ []; mtime_ns = pos 6 }

abbrev name : Bytes
name = text "a"

abbrev info : File → ℕ → FileInfo
info f hash = record { name = name; size = 1; mtime_ns = f.mtime_ns; hash = hash }

decide-merge_example :
    outcome
      (decide (some (info here 1)) (some (info there 2)) (some (info here 1)))
      (version (some (info here 1)))
      (version (some (info there 2)))
    ≡ (
      merge
          (version (some (info here 1)))
          (version (some (info there 2)))
          (version (some (info here 1))),
      merge
          (version (some (info here 1)))
          (version (some (info there 2)))
          (version (some (info here 1))),
    )
decide-merge_example = decide-merge (some (info here 1)) (some (info there 2)) (some (info here 1))

abbrev settings : Settings memory server
settings = record { root = text "s"; fuel = 1; stamp = text "now"; temp = λ n. text "t" }

-- The file is here only, and was never synced.
abbrev world : World memory server
world = record { disk = (text "s/a", here) ∷ []; state = []; remote = [] }

abbrev found : FileInfo
found = info here (fnv (1 ∷ []))

apart : same (join_path (text "s") name) (text "t") ≡ false
unfolding join_path bytes_cmp
apart = refl

perform-merge_example :
    Merged memory memory-IsPosix memory-IsWilling server settings world name none
      (merge (version (some found)) none (version (get name world.state)))
      (perform memory server settings
        (decide (some found) none (get name world.state))
        world
        name).0
unfolding join_path lookup bytes_cmp perform decide get act push changed push_file
perform-merge_example =
    perform-merge memory memory-IsPosix memory-IsWilling server settings world name (some found)
      none apart refl (λ f e. cc e) refl

-- A file with edits that were never synced, and another version that has arrived.
abbrev edited : memory.Disk
edited = (text "s/a", here) ∷ (text "t", there) ∷ []

abbrev arrived : FileInfo
arrived = info there 2

abbrev copy : Bytes
copy = text "a (conflicted copy now)"

read-arrived : memory.read edited (text "t") ≡ some there
unfolding lookup bytes_cmp
read-arrived = refl

read-here : memory.read edited (join_path (text "s") name) ≡ some here
unfolding lookup bytes_cmp join_path
read-here = refl

copy_named : conflict_name memory 1 edited (text "s") name (text "now") ≡ some copy
unfolding conflict_name find_free is_none stat_file lookup bytes_cmp join_path candidate parent_path
    cut_last copy_name tag extension_at last_dot base_name
copy_named = refl

other_content : version (some arrived) ≢ content_version here
unfolding fnv fnv_update fnv_byte
other_content e = omega (arith, ap (λ v. v.hash) (eq_of_some _ _ e))

never_synced : Unsynced (get name []) here
unfolding get lookup
never_synced = tt

moved : (memory.rename edited (join_path (text "s") name) (join_path (text "s") copy)).1 ≡ true
unfolding join_path move lookup bytes_cmp
moved = refl

install-read_copy_example :
    memory.read
      (install memory 1 (text "now") edited (text "s") [] (text "t") name arrived).0
      (join_path (text "s") copy)
    ≡ some here
install-read_copy_example =
    install-read_copy memory memory-IsPosix 1 (text "now") edited (text "s") [] (text "t") name copy
      arrived there here read-arrived read-here apart other_content never_synced copy_named moved
