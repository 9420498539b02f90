-- ===== src/Server/ReplicaLink.antt =====
-- The backup side of server/cluster.cpp: handle_replica_attach with build_manifest, the loop over the
-- primary's messages, and apply_replicated. Between two messages the other threads of the server may
-- change the membership.
pub mod Calls
pub mod Safe
use sis_op.Base.{
  ℕ, Bool, true, false, not, ◌&&◌, Option, none, some, List, [], ◌∷◌, ◌++◌, map, ◌==◌,
  if◌then◌else◌,
}
use sis_op.Base.Keys.{Bytes}
use sis_op.Protocol.Msg
use sis_op.Protocol.Msg.{Msg, Message}
use sis_op.Protocol.Address.{ServerAddress, read_server, read_servers}
use sis_op.Protocol.Reader
use sis_op.Protocol.Reader.{Reader, ◌>>=◌, return}
use sis_op.Files.Info.{FileInfo}
use sis_op.Files.Names.{is_valid_path, is_valid_username}
use sis_op.Files.System.{FileSystem}
use sis_op.Server.Accounts.{AccountFiles, is_valid_record}
use sis_op.Server.Accounts
use sis_op.Server.Storage.{list_files, remove}
use sis_op.Server.Cluster.{Cluster, Role, adopt, set_members}
use sis_op.Server.Incoming.{Store, apply_put}
use sis_op.Server.Manifest.{AccountEntry, FileEntry, write_manifest}
use sis_op.Server.Replication.{read_put}

-- The two strings of ReplDelete and of ReplAccount.
unfoldable pub read_pair : Reader (Bytes × Bytes)
read_pair = do first ← Reader.str; second ← Reader.str; return (first, second)

unfoldable pub read_attach : Reader (ServerAddress × List ServerAddress)
read_attach = do leader ← read_server; members ← read_servers; return (leader, members)

-- The replica link is this connection.
unfoldable pub is_link : ℕ → Option ℕ → Bool
is_link conn none = false
is_link conn (some other) = other == conn

abbrev owned : Bytes → List FileInfo → List FileEntry
owned user = map (λ info. (user, info))

unfoldable pub apply_account : Bool → Bytes → Bytes → AccountFiles → AccountFiles × Bool
apply_account written user account files =
    if is_valid_username user && is_valid_record account
    then Accounts.put written user account files
    else (files, false)

module _ (F : FileSystem) where
  pub record BackupServer : Type 0 where
    pub cluster : Cluster
    pub store : Store F
    pub accounts : AccountFiles

  -- A message of the primary's: the messages behind it, a fresh temporary path, whether the disk takes
  -- an account's file, what other threads do to the membership between the check of the link and
  -- apply_replicated, and whether the answer goes out.
  pub record Arrival : Type 0 where
    pub msg : Message
    pub body : List Message
    pub temp : Bytes
    pub written : Bool
    pub meanwhile : Cluster → Cluster
    pub sent : Bool

  -- What the link's thread meets, in order: a message, or a change that another thread makes.
  pub data Event : Type 0 where
    message : Arrival → Event
    other : (Cluster → Cluster) → Event

  unfoldable pub apply_delete : Bytes → Bytes → Bytes → Store F → Store F
  apply_delete root user name s =
      let (d, cache, existed) = remove F s.disk root user name s.cache in
      if is_valid_username user && is_valid_path name then record { disk = d; cache = cache } else s

  -- The branches of apply_replicated up to the answer: Ok or an Error; `none` closes the link.
  unfoldable pub apply_type : Bytes → Arrival → BackupServer → Msg → BackupServer × Option Bool
  apply_type root a b type = elim type [
    | Msg.repl_put ↦ elim (read_put a.msg.payload) [
      | none ↦ (b, none)
      | some ((user, info), rest) ↦
          let (store, answer) = apply_put F root a.temp user info a.body b.store in
          (record b { store = store }, answer)
    ]
    | Msg.repl_delete ↦ elim (read_pair a.msg.payload) [
      | none ↦ (b, none)
      | some ((user, name), rest) ↦
          (record b { store = apply_delete root user name b.store }, some true)
    ]
    | Msg.membership ↦ elim (read_servers a.msg.payload) [
      | none ↦ (b, none)
      | some (members, rest) ↦ (record b { cluster = set_members members b.cluster }, some true)
    ]
    | Msg.repl_account ↦ elim (read_pair a.msg.payload) [
      | none ↦ (b, none)
      | some ((user, account), rest) ↦
          let (accounts, done) = apply_account a.written user account b.accounts in
          (record b { accounts = accounts }, some done)
    ]
    | Msg.heartbeat ↦ (b, some true)
    | _ ↦ (b, none)
  ]

  unfoldable pub apply_replicated : Bytes → Arrival → BackupServer → BackupServer × Option Bool
  apply_replicated root a b = apply_type root a b a.msg.type

  abbrev pub answered : Arrival → Option Bool → Bool
  answered a none = false
  answered a (some accepted) = a.sent

  -- The loop of handle_replica_attach; the list ends where no further message comes.
  unfoldable pub replica_loop : Bytes → ℕ → List Event → BackupServer → BackupServer
  replica_loop root conn [] b = b
  replica_loop root conn (other change ∷ events) b =
      replica_loop root conn events (record b { cluster = change b.cluster })
  replica_loop root conn (message a ∷ events) b =
      let (applied, answer) =
        apply_replicated root a (record b { cluster = a.meanwhile b.cluster }) in
      let rest = replica_loop root conn events applied in
      if is_link conn b.cluster.primary_link
      then (if answered a answer then rest else applied)
      else b

  -- storage_.list of each user, over the files that the walk finds.
  unfoldable pub list_all :
      Bytes → List (Bytes × List FileInfo) → Store F → List FileEntry × Store F
  list_all root [] s = ([], s)
  list_all root ((user, walk) ∷ users) s =
      let (files, cache) = list_files F s.disk root user walk s.cache in
      let (entries, s') = list_all root users (record s { cache = cache }) in
      (owned user files ++ entries, s')

  unfoldable pub build_manifest :
      Bytes → List (Bytes × List FileInfo) → BackupServer → Option Bytes × Store F
  build_manifest root users b =
      let (entries, s) = list_all root users b.store in
      (write_manifest (Accounts.all b.accounts) entries [], s)

  -- The end of handle_replica_attach; true says that an election starts.
  unfoldable pub end_link : ℕ → BackupServer → BackupServer × Bool
  end_link conn b =
      if is_link conn b.cluster.primary_link
      then (record b { cluster = record b.cluster { primary_link = none } }, true)
      else (b, false)

  -- The manifest is there: the messages may come, if it goes out.
  unfoldable pub run_link :
      Bytes → ℕ → Bool → List Event → BackupServer → Option Bytes → BackupServer × Bool
  run_link root conn sent events b none = (b, false)
  run_link root conn sent events b (some manifest) =
      let ready = record b { cluster = record b.cluster { building_manifest = false } } in
      end_link conn (if sent then replica_loop root conn events ready else ready)

  -- handle_replica_attach. `sent` says whether the manifest goes out. A payload that cannot be read and
  -- a manifest that cannot be written are exceptions.
  unfoldable pub handle_replica_attach :
      Bytes
      → ℕ
      → Bytes
      → List (Bytes × List FileInfo)
      → Bool
      → List Event
      → BackupServer
      → BackupServer × Bool
  handle_replica_attach root conn payload users sent events b = elim (read_attach payload) [
    | none ↦ (b, false)
    | some ((leader, members), rest) ↦
        let adopted = record b { cluster = adopt leader members conn b.cluster } in
        let (manifest, s) = build_manifest root users adopted in
        run_link root conn sent events (record adopted { store = s }) manifest
  ]
