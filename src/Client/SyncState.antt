-- ===== src/Client/SyncState.antt =====
-- client/sync_state.hpp and client/sync_state.cpp in memory: the files as they were at the last sync.
use sis_op.Base.{◌≡◌, Option, some, none, List, if◌then◌else◌}
use sis_op.Base.Keys.{Bytes, same, bytes_key}
use sis_op.Base.Dict.{Dict, lookup, insert, erase, keys, lookup-insert, lookup-erase}
use sis_op.Files.Info.{FileInfo}

-- entries_
abbrev pub SyncState : Type 0
SyncState = Dict Bytes FileInfo

unfoldable pub get : Bytes → SyncState → Option FileInfo
get name entries = lookup name entries

unfoldable pub set : FileInfo → SyncState → SyncState
set info entries = insert info.name info entries

unfoldable pub forget : Bytes → SyncState → SyncState
forget name entries = erase name entries

unfoldable pub names : SyncState → List Bytes
names entries = keys entries

pub get-set :
    (info : FileInfo) (name : Bytes) (s : SyncState)
    → get name (set info s) ≡ (if same info.name name then some info else get name s)
unfolding get set
get-set info name s = lookup-insert info.name name info s

pub get-forget :
    (gone name : Bytes) (s : SyncState)
    → get name (forget gone s) ≡ (if same gone name then none else get name s)
unfolding get forget
get-forget gone name s = lookup-erase gone name s
