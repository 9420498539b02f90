-- ===== src/Tests/Backup.antt =====
-- A backup: the comparison with its manifest, its replica link and its accounts.
use sis_op.Base.{
  ◌≡◌, refl, Bool, true, false, ◌&&◌, Option, none, some, List, [], ◌∷◌, arith, if◌then◌else◌,
}
use sis_op.Base.Int.{pos}
use sis_op.Base.Keys.{Bytes, bytes_key, pair_key, bytes_cmp}
use sis_op.Base.Dict.{lookup, insert}
use sis_op.Protocol.Names.{text}
use sis_op.Protocol.Msg
use sis_op.Protocol.Writer
use sis_op.Protocol.Reader
use sis_op.Protocol.Carries.{write_each}
use sis_op.Files.Info.{FileInfo, Version, version}
use sis_op.Files.Names.{is_valid_username}
use sis_op.Files.System.Memory.{memory}
use sis_op.Files.Transfer.{message}
use sis_op.Server.Accounts
use sis_op.Server.Cluster.{Cluster, Role}
use sis_op.Server.Manifest.{
  AccountEntry, FileEntry, write_manifest, write_counted, read_manifest, read_counted,
}
use sis_op.Server.Resync.{
  FileKey, LinkCall, file_map, account_map, resync, bring_up_to_date, send_accounts, send_files,
  delete_files, each_unless, has_account, has_file,
}
use sis_op.Server.Resync.UpToDate.{Holds, UpToDate, resync-UpToDate}
use sis_op.Server.ReplicaLink.{
  BackupServer, Arrival, Event, other, is_link, apply_account, replica_loop, handle_replica_attach,
}
use sis_op.Server.ReplicaLink
use sis_op.Server.ReplicaLink.Calls.{account_on_link, account_on_link-agrees}
use sis_op.Server.ReplicaLink.Safe.{AllValid, attach-AllValid}

abbrev info : FileInfo
info = record { name = text "a"; size = 2; mtime_ns = pos 5; hash = 7 }

abbrev files : List FileEntry
files = (text "ana", info) ∷ []

abbrev accounts : List AccountEntry
accounts = (text "ana", text "x") ∷ []

-- What the primary holds.
abbrev source : FileKey → Option Version
source key = version (lookup key (file_map files []))

abbrev target : Bytes → Option Bytes
target user = lookup user accounts

-- The manifest of an empty backup.
abbrev manifest : Bytes
manifest = 0 ∷ 0 ∷ 0 ∷ 0 ∷ 0 ∷ 0 ∷ 0 ∷ 0 ∷ []

manifest_written : write_manifest [] [] [] ≡ some manifest
unfolding write_manifest write_counted Writer.u32 Writer.u16 Writer.u8 write_each
manifest_written = refl

all_held : Holds source target accounts files
unfolding lookup bytes_cmp file_map insert
all_held = record {
  target_as = (refl, tt);
  source_as = (refl, tt);
  source_none = λ key e. rw e refl;
}

-- A link on which each call succeeds.
abbrev all_succeed : LinkCall → Bool
all_succeed call = true

ends_well : (resync all_succeed accounts files manifest).1 ≡ true
unfolding resync read_manifest read_counted Reader.u32 Reader.u16 Reader.take_bytes Reader.repeat
    bring_up_to_date send_accounts each_unless has_account lookup account_map send_files file_map
    insert has_file delete_files bytes_cmp
ends_well = refl

resync-UpToDate_example :
    UpToDate source target accounts [] [] (resync all_succeed accounts files manifest).0
resync-UpToDate_example =
    resync-UpToDate all_succeed source target accounts [] files [] all_held (omega arith)
      (omega arith) tt tt manifest manifest_written ends_well

abbrev lone : Cluster
lone = record {
  self = record { id = 999; host = text "h"; port = 4001 };
  role = Role.backup;
  primary = record { id = 1000; host = text "h"; port = 4000 };
  primary_known = true;
  members = [];
  lowest_id = 0;
  links = [];
  primary_link = none;
  building_manifest = false;
  coordinator_seen = false;
}

abbrev backup : BackupServer memory
backup = record { cluster = lone; store = record { disk = []; cache = [] }; accounts = [] }

no_accounts : AllValid []
unfolding lookup
no_accounts user account e = cc e

-- The primary h:4000 with the id 1000, and no members.
abbrev attach_payload : Bytes
attach_payload = 0 ∷ 0 ∷ 3 ∷ 232 ∷ 0 ∷ 1 ∷ 104 ∷ 15 ∷ 160 ∷ 0 ∷ 0 ∷ []

abbrev heartbeat : Arrival memory
heartbeat = record {
  msg = message Msg.heartbeat [];
  body = [];
  temp = text "t";
  written = true;
  meanwhile = λ c. c;
  sent = true;
}

abbrev events : List (Event memory)
events = ReplicaLink.message heartbeat ∷ other (λ c. c) ∷ []

attach-AllValid_example :
    AllValid
      (handle_replica_attach memory (text "d") 7 attach_payload [] true events backup).0.accounts
attach-AllValid_example =
    attach-AllValid memory (text "d") 7 attach_payload [] true events backup no_accounts

account_on_link-agrees_example :
    account_on_link memory (text "d") true true (text "ana") (text "x") backup
    ≡ some (
      record backup {
        accounts =
            if is_valid_username (text "ana") && Accounts.is_valid_record (text "x") && true
            then insert (text "ana") (text "x") backup.accounts
            else backup.accounts;
      },
      true && (is_valid_username (text "ana") && Accounts.is_valid_record (text "x") && true),
    )
account_on_link-agrees_example =
    account_on_link-agrees memory (text "d") true true (text "ana") (text "x") backup (omega arith)
      (omega arith)
