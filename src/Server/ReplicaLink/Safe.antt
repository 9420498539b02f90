-- ===== src/Server/ReplicaLink/Safe.antt =====
-- What the messages of a replica link can do to a backup.
use sis_op.Base.{
  ℕ, ◌≡◌, ◌≢◌, ◌↔◌, if◌then◌else◌, refl, sym, subst, Bool, true, false, Option, none, some, List,
  [], ◌∷◌, All, Bool-cases, Option-cases, if-both, eq_of_some, inl, inr,
}
use sis_op.Base.Keys.{Bytes, same, bytes_key, eq_of_same}
use sis_op.Base.Dict.{lookup, insert, lookup-insert}
use sis_op.Protocol.Msg.{Msg}
use sis_op.Protocol.Address.{read_servers}
use sis_op.Files.Info.{FileInfo}
use sis_op.Files.Names.{is_valid_username}
use sis_op.Files.System.{FileSystem}
use sis_op.Server.Accounts.{AccountFiles, is_valid_record}
use sis_op.Server.Accounts
use sis_op.Server.Replication.{read_put}
use sis_op.Server.ReplicaLink.{
  BackupServer, Arrival, Event, message, other, is_link, apply_account, read_pair, apply_type,
  apply_replicated, answered, replica_loop, read_attach, run_link, end_link, handle_replica_attach,
}

-- Every account is a user's, and its record can be parsed.
abbrev pub AllValid : AccountFiles → Type 0
AllValid files =
    (user account : Bytes)
    → lookup user files ≡ some account
    → (is_valid_username user ≡ true) × (is_valid_record account ≡ true)

insert-AllValid :
    (user account : Bytes) (files : AccountFiles)
    → is_valid_username user ≡ true
    → is_valid_record account ≡ true
    → AllValid files
    → AllValid (insert user account files)
insert-AllValid user account files valid_user valid_account valid j found h =
    elim (Bool-cases (same user j)) [
      | inl eq ↦
          let now = rw (lookup-insert user j account files, eq) at h in
          (
            subst (λ u. is_valid_username u ≡ true) (eq_of_same user j eq) valid_user,
            subst (λ r. is_valid_record r ≡ true) (eq_of_some account found now) valid_account,
          )
      | inr ne ↦ valid j found (rw (lookup-insert user j account files, ne) at h)
    ]

put-AllValid :
    (written : Bool) (user account : Bytes) (files : AccountFiles)
    → is_valid_username user ≡ true
    → is_valid_record account ≡ true
    → AllValid files
    → AllValid (Accounts.put written user account files).0
unfolding Accounts.put Accounts.write
put-AllValid true user account files valid_user valid_account valid =
    insert-AllValid user account files valid_user valid_account valid
put-AllValid false user account files valid_user valid_account valid = valid

-- A record that is put is valid, and the others are as they were.
apply_account-AllValid :
    (written : Bool) (user account : Bytes) (files : AccountFiles)
    → AllValid files
    → AllValid (apply_account written user account files).0
unfolding apply_account
apply_account-AllValid written user account files valid =
    elim (Bool-cases (is_valid_username user)) [
      | inr no_user ↦ rw (no_user, apply_account) valid
      | inl user_ok ↦ elim (Bool-cases (is_valid_record account)) [
        | inr no_record ↦ rw (user_ok, no_record, apply_account) valid
        | inl record_ok ↦
            rw (user_ok, record_ok, apply_account)
              (put-AllValid written user account files user_ok record_ok valid)
      ]
    ]

module _ (F : FileSystem) where
  apply_type-accounts :
      (root : Bytes) (a : Arrival F) (b : BackupServer F) (type : Msg)
      → AllValid b.accounts
      → AllValid (apply_type F root a b type).0.accounts
  unfolding apply_type
  apply_type-accounts root a b Msg.repl_account valid =
      elim (Option-cases (read_pair a.msg.payload)) [
        | inl e ↦ rw (e, apply_type) valid
        | inr (x, e) ↦
            let ok = apply_account-AllValid a.written x.0.0 x.0.1 b.accounts valid in
            rw (e, apply_type) ok
      ]
  apply_type-accounts root a b Msg.repl_put valid = elim (Option-cases (read_put a.msg.payload)) [
    | inl e ↦ rw (e, apply_type) valid
    | inr (x, e) ↦ rw (e, apply_type) valid
  ]
  apply_type-accounts root a b Msg.repl_delete valid =
      elim (Option-cases (read_pair a.msg.payload)) [
        | inl e ↦ rw (e, apply_type) valid
        | inr (x, e) ↦ rw (e, apply_type) valid
      ]
  apply_type-accounts root a b Msg.membership valid =
      elim (Option-cases (read_servers a.msg.payload)) [
        | inl e ↦ rw (e, apply_type) valid
        | inr (x, e) ↦ rw (e, apply_type) valid
      ]
  apply_type-accounts root a b _ valid = valid

  -- What no message changes and no other thread, the loop does not change.
  module _ (P : BackupServer F → Type 0) (root : Bytes) (conn : ℕ) where
    abbrev KeptBy : Event F → Type 0
    KeptBy (message a) =
        (b : BackupServer F)
        → P b
        → P (apply_replicated F root a (record b { cluster = a.meanwhile b.cluster })).0
    KeptBy (other change) = (b : BackupServer F) → P b → P (record b { cluster = change b.cluster })

    replica_loop-keeps :
        (events : List (Event F)) (b : BackupServer F)
        → All KeptBy events
        → P b
        → P (replica_loop F root conn events b)
    unfolding replica_loop
    replica_loop-keeps [] b kept p = p
    replica_loop-keeps (other change ∷ events) b kept p =
        replica_loop-keeps events _ kept.1 (kept.0 b p)
    replica_loop-keeps (message a ∷ events) b kept p =
        let now = kept.0 b p in
        if-both P (is_link conn b.cluster.primary_link)
          (if-both P
            (answered F a
              (apply_replicated F root a (record b { cluster = a.meanwhile b.cluster })).1)
            (replica_loop-keeps events _ kept.1 now) now)
          p

  accounts-KeptBy :
      (root : Bytes) (conn : ℕ) (events : List (Event F))
      → All (KeptBy (λ b. AllValid b.accounts) root conn) events
  unfolding apply_replicated
  accounts-KeptBy root conn [] = tt
  accounts-KeptBy root conn (message a ∷ events) =
      ((λ b valid. apply_type-accounts root a _ a.msg.type valid), accounts-KeptBy root conn events)
  accounts-KeptBy root conn (other change ∷ events) =
      ((λ b valid. valid), accounts-KeptBy root conn events)

  end_link-accounts : (conn : ℕ) (b : BackupServer F) → (end_link F conn b).0.accounts ≡ b.accounts
  unfolding end_link
  end_link-accounts conn b = elim (Bool-cases (is_link conn b.cluster.primary_link)) [
    | inl e ↦ rw (e, end_link) refl
    | inr e ↦ rw (e, end_link) refl
  ]

  run_link-accounts :
      (root : Bytes) (conn : ℕ) (sent : Bool) (events : List (Event F)) (b : BackupServer F)
      (manifest : Option Bytes)
      → AllValid b.accounts
      → AllValid (run_link F root conn sent events b manifest).0.accounts
  unfolding run_link
  run_link-accounts root conn sent events b none valid = valid
  run_link-accounts root conn sent events b (some bytes) valid =
      subst AllValid (sym (end_link-accounts conn _)) (
        if-both (λ (b : BackupServer F). AllValid b.accounts) sent
          (replica_loop-keeps (λ b. AllValid b.accounts) root conn events _
            (accounts-KeptBy root conn events) valid)
          valid)

  -- A backup whose accounts all have valid user names and records that can be parsed has only such accounts
  -- after a replica link, whatever the primary sends on it and whatever other threads do to the membership.
  pub attach-AllValid :
      (root : Bytes) (conn : ℕ) (payload : Bytes) (users : List (Bytes × List FileInfo))
      (sent : Bool) (events : List (Event F)) (b : BackupServer F)
      → AllValid b.accounts
      → AllValid (handle_replica_attach F root conn payload users sent events b).0.accounts
  unfolding handle_replica_attach
  attach-AllValid root conn payload users sent events b valid =
      elim (Option-cases (read_attach payload)) [
        | inl e ↦ rw (e, handle_replica_attach) valid
        | inr (((leader, members), rest), e) ↦
            rw (e, handle_replica_attach) (run_link-accounts root conn sent events _ _ valid)
      ]

  -- The backup when the messages of the link end.
  abbrev pub at_end : Bytes → ℕ → Bool → List (Event F) → BackupServer F → BackupServer F
  at_end root conn sent events b =
      let ready = record b { cluster = record b.cluster { building_manifest = false } } in
      if sent then replica_loop F root conn events ready else ready

  -- This connection is not the link any more; an election starts if and only if it was until then, and
  -- where none starts nothing is changed.
  abbrev pub Released : ℕ → BackupServer F → BackupServer F × Bool → Type 0
  Released conn b out =
      (out.0.cluster.primary_link ≢ some conn)
      × ((out.1 ≡ true) ↔ (b.cluster.primary_link ≡ some conn))
      × (out.1 ≡ false → out.0 ≡ b)
