-- ===== src/Server/Resync.antt =====
-- attach_replica of server/cluster.cpp: the comparison of the primary's accounts and files with a
-- backup's manifest, and the calls on the link that bring the backup up to date. What each call returns
-- is an argument; what it does on the backup is not assumed.
pub mod Each
pub mod Exchanges
pub mod UpToDate
use sis_op.Base.{
  ℕ, ◌≡◌, Bool, true, false, not, ◌&&◌, Option, none, some, List, [], ◌∷◌, ◌==◌, if◌then◌else◌,
}
use sis_op.Base.Keys.{Bytes, Key, same, bytes_key, pair_key}
use sis_op.Base.Dict.{Dict, lookup, insert}
use sis_op.Files.Info.{FileInfo, Version, version}
use sis_op.Files.Names.{◌is◌}
use sis_op.Server.Manifest.{AccountEntry, FileEntry, read_manifest}

-- A user and a path below the user's folder.
abbrev pub FileKey : Type 0
FileKey = Bytes × Bytes

-- The calls of account_on_link, put_on_link and delete_on_link.
pub data LinkCall : Type 0 where
  account_call : Bytes → Bytes → LinkCall
  put_call delete_call : FileKey → LinkCall

-- std::map from the entries, in their order: a later one replaces an earlier one.
unfoldable pub file_map : List FileEntry → Dict FileKey FileInfo → Dict FileKey FileInfo
file_map [] m = m
file_map ((user, info) ∷ entries) m = file_map entries (insert (user, info.name) info m)

unfoldable pub account_map : List AccountEntry → Dict Bytes Bytes → Dict Bytes Bytes
account_map [] m = m
account_map ((user, account) ∷ entries) m = account_map entries (insert user account m)

-- The backup's manifest has this very record.
unfoldable pub has_account : Dict Bytes Bytes → Bytes → Bytes → Bool
has_account accounts user account = elim (lookup user accounts) [
  | none ↦ false
  | some other ↦ other is account
]

-- The backup's manifest has a file of this hash and size.
unfoldable pub has_file : Dict FileKey FileInfo → FileKey → FileInfo → Bool
has_file files key info = elim (lookup key files) [
  | none ↦ false
  | some other ↦ other.hash == info.hash && other.size == info.size
]

abbrev pub is_some {ℓ} : {A : Type ℓ} → Option A → Bool
is_some none = false
is_some (some a) = true

-- A loop that skips an element, or makes an exchange for it and stops with false if that fails.
unfoldable pub each_unless {ℓ κ} :
    {E : Type ℓ} {State : Type κ}
    → (E → Bool)
    → (State → E → State × Bool)
    → List E
    → State
    → State × Bool
each_unless skip send [] s = (s, true)
each_unless skip send (e ∷ l) s =
    let kept = each_unless skip send l s in
    let sent = each_unless skip send l (send s e).0 in
    if skip e then kept else if (send s e).1 then sent else ((send s e).0, false)

-- `answers` tells which calls return true.
module _ (answers : LinkCall → Bool) where
  -- The calls that were made, the last one first, and what this one returns.
  abbrev pub make : LinkCall → List LinkCall → List LinkCall × Bool
  make call calls = (call ∷ calls, answers call)

  -- The three loops; each ends with false at the first exchange that fails.
  unfoldable pub send_accounts :
      Dict Bytes Bytes → List AccountEntry → List LinkCall → List LinkCall × Bool
  send_accounts remote =
      each_unless (λ e. has_account remote e.0 e.1) (λ s e. make (account_call e.0 e.1) s)

  unfoldable pub send_files :
      Dict FileKey FileInfo → Dict FileKey FileInfo → List LinkCall → List LinkCall × Bool
  send_files remote = each_unless (λ e. has_file remote e.0 e.1) (λ s e. make (put_call e.0) s)

  unfoldable pub delete_files :
      Dict FileKey FileInfo → Dict FileKey FileInfo → List LinkCall → List LinkCall × Bool
  delete_files here = each_unless (λ e. is_some (lookup e.0 here)) (λ s e. make (delete_call e.0) s)

  -- The changes, once the manifest is read.
  unfoldable pub bring_up_to_date :
      List AccountEntry
      → Dict FileKey FileInfo
      → Dict Bytes Bytes
      → Dict FileKey FileInfo
      → List LinkCall
      → List LinkCall × Bool
  bring_up_to_date accounts here remote_accounts remote s =
      let (s1, accounts_sent) = send_accounts remote_accounts accounts s in
      let (s2, files_sent) = send_files remote here s1 in
      let (s3, deleted) = delete_files here remote s2 in
      if accounts_sent then (if files_sent then (s3, deleted) else (s2, false)) else (s1, false)

  -- attach_replica after the reply to ReplicaAttach: `accounts` and `files` are the primary's.
  unfoldable pub resync : List AccountEntry → List FileEntry → Bytes → List LinkCall × Bool
  resync accounts files manifest = elim (read_manifest manifest) [
    | none ↦ ([], false)
    | some ((remote_accounts, remote), rest) ↦
        bring_up_to_date accounts (file_map files []) (account_map remote_accounts [])
          (file_map remote []) []
  ]
