-- ===== src/Server/ReplicaLink/Calls.antt =====
-- account_on_link and delete_on_link of server/cluster.cpp: a call of the primary's on a replica link, and
-- what the backup does with it. The answer may be lost.
use sis_op.Base.{
  ◌<◌, ◌^◌, ◌≡◌, refl, Bool, true, false, ◌&&◌, Option, none, some, [], length, if◌then◌else◌,
  arith,
}
use sis_op.Base.Keys.{Bytes, bytes_key}
use sis_op.Base.Dict.{insert}
use sis_op.Protocol.Msg.{Msg}
use sis_op.Protocol.Writer
use sis_op.Protocol.Reader
use sis_op.Protocol.Reader.{◌>>=◌, return}
use sis_op.Protocol.Carries.{
  WriterStep, Carries, Carries-bind, Carries-map, Carries-str, Carries-whole, and_write,
}
use sis_op.Files.Names.{is_valid_username}
use sis_op.Files.System.{FileSystem}
use sis_op.Files.Transfer.{message}
use sis_op.Server.Accounts.{is_valid_record}
use sis_op.Server.Accounts
use sis_op.Server.ReplicaLink.{
  BackupServer, Arrival, read_pair, apply_account, apply_delete, apply_type, apply_replicated,
}

unfoldable pub write_pair : Bytes → Bytes → WriterStep
write_pair first second = and_write (Writer.str first) (Writer.str second)

pair-Carries :
    (first second : Bytes)
    → length first < 2 ^ 16
    → length second < 2 ^ 16
    → Carries (write_pair first second) read_pair (first, second)
unfolding write_pair read_pair
pair-Carries first second f s =
    Carries-bind {w = Writer.str first} {v = Writer.str second}
      (λ first. do second ← Reader.str; return (first, second)) (Carries-str first f)
      (Carries-map (λ second. (first, second)) (Carries-str second s))

-- What `call` makes of the answer, an Ok or an Error; `none` is no answer.
unfoldable pub call_result : Option Bool → Bool
call_result none = false
call_result (some accepted) = accepted

call_result-heard :
    (heard accepted : Bool)
    → call_result (if heard then some accepted else none) ≡ (heard && accepted)
unfolding call_result
call_result-heard true accepted = refl
call_result-heard false accepted = refl

and_true : (b : Bool) → (b && true) ≡ b
and_true true = refl
and_true false = refl

-- Whether an account is stored.
apply_account-done :
    (written : Bool) (user account : Bytes) (files : Accounts.AccountFiles)
    → (apply_account written user account files).1
      ≡ (is_valid_username user && is_valid_record account && written)
unfolding apply_account Accounts.put Accounts.write
apply_account-done written user account files = ground arith

apply_account-stored :
    (written : Bool) (user account : Bytes) (files : Accounts.AccountFiles)
    → (apply_account written user account files).0 ≡ (
        if is_valid_username user && is_valid_record account && written
        then insert user account files
        else files)
unfolding apply_account Accounts.put Accounts.write
apply_account-stored written user account files = ground arith

module _ (F : FileSystem) where
  -- The message and what the backup answers. `none` is the exception for a string that does not fit.
  unfoldable pub call_pair :
      Msg → Bytes → Bool → Bool → Bytes → Bytes → BackupServer F → Option (BackupServer F × Bool)
  call_pair type root written heard first second b = elim (write_pair first second []) [
    | none ↦ none
    | some payload ↦
        let a : Arrival F = record {
          msg = message type payload;
          body = [];
          temp = [];
          written = written;
          meanwhile = λ c. c;
          sent = heard;
        } in
        let (applied, answer) = apply_replicated F root a b in
        some (applied, call_result (if heard then answer else none))
  ]

  unfoldable pub account_on_link :
      Bytes → Bool → Bool → Bytes → Bytes → BackupServer F → Option (BackupServer F × Bool)
  account_on_link root written heard user account b =
      call_pair Msg.repl_account root written heard user account b

  unfoldable pub delete_on_link :
      Bytes → Bool → Bytes → Bytes → BackupServer F → Option (BackupServer F × Bool)
  delete_on_link root heard user name b = call_pair Msg.repl_delete root true heard user name b

  -- An account that the primary sends, with a name and a record that fit in a message, over a link whose answer may be lost: the
  -- backup stores a valid record of a valid name, if its disk takes it, and changes nothing else; the call succeeds exactly if the account is stored and the answer heard.
  pub account_on_link-agrees :
      (root : Bytes) (written heard : Bool) (user account : Bytes) (b : BackupServer F)
      → length user < 2 ^ 16
      → length account < 2 ^ 16
      → account_on_link root written heard user account b
        ≡ some (
          record b {
            accounts =
                if is_valid_username user && is_valid_record account && written
                then insert user account b.accounts
                else b.accounts;
          },
          heard && (is_valid_username user && is_valid_record account && written),
        )
  unfolding account_on_link call_pair apply_replicated apply_type
  account_on_link-agrees root written heard user account b short_user short =
      let c = pair-Carries user account short_user short in
      let read = Carries-whole c.out c (c.wrote []) in
      rw (c.wrote [], call_pair, account_on_link)
        (rw (read, apply_type, apply_replicated)
          (rw
            (
              call_result-heard heard (apply_account written user account b.accounts).1,
              apply_account-done written user account b.accounts,
              apply_account-stored written user account b.accounts,
            )
            refl))

  pub delete_on_link-agrees :
      (root : Bytes) (heard : Bool) (user name : Bytes) (b : BackupServer F)
      → length user < 2 ^ 16
      → length name < 2 ^ 16
      → delete_on_link root heard user name b
        ≡ some (record b { store = apply_delete F root user name b.store }, heard)
  unfolding delete_on_link call_pair apply_replicated apply_type
  delete_on_link-agrees root heard user name b short_user short =
      let c = pair-Carries user name short_user short in
      let read = Carries-whole c.out c (c.wrote []) in
      rw (c.wrote [], call_pair, delete_on_link)
        (rw (read, apply_type, apply_replicated)
          (rw (call_result-heard heard true, and_true heard) refl))
