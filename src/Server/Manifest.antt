-- ===== src/Server/Manifest.antt =====
-- The manifest of server/cluster.cpp: what build_manifest writes on a backup, and what attach_replica
-- reads of it on the primary.
use sis_op.Base.{◌^◌, ◌<◌, some, List, All, length}
use sis_op.Base.Keys.{Bytes, bytes_key, pair_key}
use sis_op.Protocol.Writer
use sis_op.Protocol.Reader
use sis_op.Protocol.Reader.{Reader, ◌>>=◌, return}
use sis_op.Protocol.Carries.{
  WriterStep, Carries, Carries-bind, Carries-map, Carries-str, Carries-u32, Carries-each, and_write,
  write_each,
}
use sis_op.Files.Info.{
  FileInfo, FitsInfo, write_file_info, read_file_info, read_file_info-write_file_info,
}

-- A user and the user's record.
abbrev pub AccountEntry : Type 0
AccountEntry = Bytes × Bytes

-- A user and a file of the user's.
abbrev pub FileEntry : Type 0
FileEntry = Bytes × FileInfo

unfoldable pub write_account : AccountEntry → WriterStep
write_account (user, account) = and_write (Writer.str user) (Writer.str account)

unfoldable pub read_account : Reader AccountEntry
read_account = do user ← Reader.str; account ← Reader.str; return (user, account)

unfoldable pub write_entry : FileEntry → WriterStep
write_entry (user, info) = and_write (Writer.str user) (write_file_info info)

unfoldable pub read_entry : Reader FileEntry
read_entry = do user ← Reader.str; info ← read_file_info; return (user, info)

-- A count, and that many entries.
unfoldable pub write_counted {ℓ} : {A : Type ℓ} → (A → WriterStep) → List A → WriterStep
write_counted write l buf = write_each write l (Writer.u32 (length l) buf)

unfoldable pub read_counted {ℓ} : {A : Type ℓ} → Reader A → Reader (List A)
read_counted read = do count ← Reader.u32; Reader.repeat count read

unfoldable pub write_manifest : List AccountEntry → List FileEntry → WriterStep
write_manifest accounts files =
    and_write (write_counted write_account accounts) (write_counted write_entry files)

unfoldable pub read_manifest : Reader (List AccountEntry × List FileEntry)
read_manifest = do
  accounts ← read_counted read_account
  files ← read_counted read_entry
  return (accounts, files)

abbrev pub FitsAccount : AccountEntry → Type 0
FitsAccount (user, account) = (length user < 2 ^ 16) × (length account < 2 ^ 16)

abbrev pub FitsEntry : FileEntry → Type 0
FitsEntry (user, info) = (length user < 2 ^ 16) × FitsInfo info

account-Carries : (a : AccountEntry) → FitsAccount a → Carries (write_account a) read_account a
unfolding write_account read_account
account-Carries (user, account) fits =
    Carries-bind {w = Writer.str user} {v = Writer.str account}
      (λ user. do account ← Reader.str; return (user, account)) (Carries-str user fits.0)
      (Carries-map (λ account. (user, account)) (Carries-str account fits.1))

entry-Carries : (e : FileEntry) → FitsEntry e → Carries (write_entry e) read_entry e
unfolding write_entry read_entry
entry-Carries (user, info) fits =
    Carries-bind {w = Writer.str user} {v = write_file_info info}
      (λ user. do info ← read_file_info; return (user, info)) (Carries-str user fits.0)
      (Carries-map (λ info. (user, info)) (read_file_info-write_file_info info fits.1))

Carries-counted {ℓ κ} :
    {A : Type ℓ} (Fits : A → Type κ) (write : A → WriterStep) (read : Reader A)
    → ((a : A) → Fits a → Carries (write a) read a)
    → (l : List A) → length l < 2 ^ 32
    → All Fits l
    → Carries (write_counted write l) (read_counted read) l
unfolding write_counted read_counted
Carries-counted Fits write read one l short fits =
    Carries-bind {w = λ buf. some (Writer.u32 (length l) buf)} {v = write_each write l}
      (λ count. Reader.repeat count read) (Carries-u32 (length l) short)
      (Carries-each Fits write read one l fits)

-- A manifest of fewer than 2 ^ 32 accounts and files, whose fields fit their types, is read back as
-- it was.
pub read_manifest-write_manifest :
    (accounts : List AccountEntry) (files : List FileEntry)
    → length accounts < 2 ^ 32
    → length files < 2 ^ 32
    → All FitsAccount accounts
    → All FitsEntry files
    → Carries (write_manifest accounts files) read_manifest (accounts, files)
unfolding write_manifest read_manifest
read_manifest-write_manifest accounts files few_accounts few_files fits_accounts fits_files =
    Carries-bind {w = write_counted write_account accounts} {v = write_counted write_entry files}
      (λ accounts. do files ← read_counted read_entry; return (accounts, files))
      (Carries-counted FitsAccount write_account read_account account-Carries accounts few_accounts
        fits_accounts)
      (Carries-map (λ files. (accounts, files))
        (Carries-counted FitsEntry write_entry read_entry entry-Carries files few_files fits_files))
