-- ===== src/Server/Resync/UpToDate.antt =====
-- What the calls that attach_replica makes come to.
use sis_op.Base.{
  ◌<◌, ◌^◌, ◌≡◌, refl, sym, ap, ◌∙◌, subst, Bool, true, false, ◌&&◌, Option, none, some, List, [],
  ◌∷◌, All, length, arith, ◌==◌, Option-cases, inl, inr,
}
use sis_op.Base.Keys.{Bytes, bytes_key, pair_key, eq_of_same}
use sis_op.Base.Dict.{Dict, lookup}
use sis_op.Protocol.Carries.{Carries-whole}
use sis_op.Files.Info.{FileInfo, Version, version}
use sis_op.Server.Resync.Each.{All-lookup, All-map, All-insert, Ends, each_unless-Ends}
use sis_op.Server.Resync.Exchanges.{
  file_after, account_after, put, delete, put_account, Settled, put-Settles, delete-Settles,
  put_account-Settles,
}
use sis_op.Server.Manifest.{
  AccountEntry, FileEntry, FitsAccount, FitsEntry, write_manifest, read_manifest-write_manifest,
}
use sis_op.Server.Resync.{
  FileKey, LinkCall, file_map, account_map, has_account, has_file, send_accounts, send_files,
  delete_files, is_some, bring_up_to_date, resync,
}

-- What the primary holds, of which the lists are complete for the files.
pub record Holds (source : FileKey → Option Version) (target : Bytes → Option Bytes)
    (accounts : List AccountEntry) (files : List FileEntry) : Type 0 where
  pub target_as : All (λ e. target e.0 ≡ some e.1) accounts
  pub source_as : All (λ e. source (e.0, e.1.name) ≡ version (some e.1)) files
  pub source_none : (key : FileKey) → lookup key (file_map files []) ≡ none → source key ≡ none

All-file_map :
    (P : FileKey × FileInfo → Type 0) (files : List FileEntry) (m : Dict FileKey FileInfo)
    → All (λ e. P ((e.0, e.1.name), e.1)) files
    → All P m
    → All P (file_map files m)
unfolding file_map
All-file_map P [] m new old = old
All-file_map P ((user, info) ∷ files) m new old =
    All-file_map P files _ new.1 (All-insert P (user, info.name) info m new.0 old)

is_some-false {ℓ} : {A : Type ℓ} (o : Option A) → is_some o ≡ false → o ≡ none
is_some-false none h = refl
is_some-false (some a) h = cc h

is_some-true {ℓ} : {A : Type ℓ} (o : Option A) → is_some o ≡ true → (a : A) × (o ≡ some a)
is_some-true none h = cc h
is_some-true (some a) h = (a, refl)

All-any : {A : Type 0} (l : List A) → All (λ a. Unit {0}) l
All-any [] = tt
All-any (a ∷ l) = (tt, All-any l)

has_file-version :
    (remote : Dict FileKey FileInfo) (key : FileKey) (info : FileInfo)
    → has_file remote key info ≡ true
    → version (lookup key remote) ≡ version (some info)
unfolding has_file
has_file-version remote key info h = elim (Option-cases (lookup key remote)) [
  | inl missing ↦ cc (rw (missing, has_file) at h)
  | inr (other, found) ↦ rw found (
      let h' : (other.hash == info.hash && other.size == info.size) ≡ true =
        rw (found, has_file) at h in
      ground arith)
]

has_account-lookup :
    (remote : Dict Bytes Bytes) (user account : Bytes)
    → has_account remote user account ≡ true
    → lookup user remote ≡ some account
unfolding has_account
has_account-lookup remote user account h = elim (Option-cases (lookup user remote)) [
  | inl missing ↦ cc (rw (missing, has_account) at h)
  | inr (other, found) ↦ found ∙ ap some (eq_of_same other account (rw (found, has_account) at h))
]

-- What a manifest tells of a backup.
abbrev pub told_file : List FileEntry → FileKey → Option Version
told_file files key = version (lookup key (file_map files []))

abbrev pub told_account : List AccountEntry → Bytes → Option Bytes
told_account accounts user = lookup user (account_map accounts [])

-- Carried out on what the manifest tells, the calls leave what the primary holds, and no other file.
abbrev pub UpToDate :
    (FileKey → Option Version)
    → (Bytes → Option Bytes)
    → List AccountEntry
    → List AccountEntry
    → List FileEntry
    → List LinkCall
    → Type 0
UpToDate source target accounts remote_accounts remote calls =
    ((key : FileKey) → file_after source (told_file remote) calls key ≡ source key)
    × All (λ e. account_after (told_account remote_accounts) calls e.0 ≡ target e.0) accounts

module _ (answers : LinkCall → Bool) (source : FileKey → Option Version)
    (target : Bytes → Option Bytes) (accounts remote_accounts : List AccountEntry)
    (files remote : List FileEntry) (holds : Holds source target accounts files) where
  abbrev file : List LinkCall → FileKey → Option Version
  file s key = file_after source (told_file remote) s key

  abbrev here : Dict FileKey FileInfo
  here = file_map files []

  abbrev there : Dict FileKey FileInfo
  there = file_map remote []

  -- The backup after each of the loops.
  abbrev first : List LinkCall × Bool
  first = send_accounts answers (account_map remote_accounts []) accounts []

  abbrev second : List LinkCall × Bool
  second = send_files answers there here first.0

  abbrev third : List LinkCall × Bool
  third = delete_files answers here there second.0

  first-Ends :
      Ends
        (λ s e.
          put_account answers source
            (told_file remote)
            (told_account remote_accounts)
            target
            s
            e.0
            e.1)
        (Settled answers source (told_file remote) (told_account remote_accounts) target)
        (λ e. inl e.0)
        []
        accounts
        first
  unfolding send_accounts
  first-Ends =
      each_unless-Ends _ _ (λ e. inl e.0) _ accounts []
        (All-map _ _ accounts
          (λ e h. (
            λ send.
                put_account-Settles answers source (told_file remote) (told_account remote_accounts)
                  target e h,
            λ skip. has_account-lookup _ e.0 e.1 skip ∙ sym h,
          ))
          holds.target_as)

  second-Ends :
      first.1 ≡ true
      → Ends
          (λ s e. put answers source (told_file remote) (told_account remote_accounts) target s e.0)
          (Settled answers source (told_file remote) (told_account remote_accounts) target)
          (λ e. inr e.0)
          first.0
          here
          second
  unfolding send_files
  second-Ends done =
      each_unless-Ends _ _ (λ e. inr e.0) _ here first.0
        (All-map _ _ here
          (λ e h. (
            λ send.
                put-Settles answers source (told_file remote) (told_account remote_accounts) target
                  e,
            λ skip. (first-Ends done).0 (inr e.0) (has_file-version there e.0 e.1 skip ∙ sym h),
          ))
          (All-file_map (λ e. source e.0 ≡ version (some e.1)) files [] holds.source_as tt))

  -- A file that the primary lists.
  listed :
      first.1 ≡ true
      → second.1 ≡ true
      → (key : FileKey) → (info : FileInfo) × (lookup key here ≡ some info)
      → file second.0 key ≡ source key
  listed done sent key (info, found) =
      All-lookup (λ k. file second.0 k ≡ source k) key here info found (second-Ends done sent).1

  third-Ends :
      first.1 ≡ true
      → second.1 ≡ true
      → Ends
          (λ s e.
            delete answers source (told_file remote) (told_account remote_accounts) target s e.0)
          (Settled answers source (told_file remote) (told_account remote_accounts) target)
          (λ e. inr e.0)
          second.0
          there
          third
  unfolding delete_files
  third-Ends done sent =
      each_unless-Ends _ _ (λ e. inr e.0) _ there second.0
        (All-map _ _ there
          (λ e h. (
            λ gone.
                delete-Settles answers source (told_file remote) (told_account remote_accounts)
                  target e (holds.source_none e.0 (is_some-false _ gone)),
            λ kept. listed done sent e.0 (is_some-true _ kept),
          ))
          (All-any there))

  -- Where the loops all end well, the last one's state is that of the backup.
  bring_up_to_date-done :
      (t : List LinkCall × Bool)
      → bring_up_to_date answers accounts here (account_map remote_accounts []) there [] ≡ t
      → t.1 ≡ true
      → (first.1 ≡ true) × (second.1 ≡ true) × (third.1 ≡ true) × (third.0 ≡ t.0)
  unfolding bring_up_to_date
  bring_up_to_date-done t e done = ground arith

  third-UpToDate :
      first.1 ≡ true
      → second.1 ≡ true
      → third.1 ≡ true
      → UpToDate source target accounts remote_accounts remote third.0
  third-UpToDate done sent deleted = (
    (λ key. elim (Option-cases (lookup key here)) [
      | inr (info, found) ↦
          (third-Ends done sent deleted).0 (inr key) (listed done sent key (info, found))
      | inl unlisted ↦ elim (Option-cases (lookup key there)) [
        | inr (info, found) ↦
            All-lookup (λ k. file third.0 k ≡ source k) key there info found
              (third-Ends done sent deleted).1
        | inl nowhere ↦ (third-Ends done sent deleted).0 (inr key) (
            (second-Ends done sent).0 (inr key)
              ((first-Ends done).0 (inr key) (rw nowhere (sym (holds.source_none key unlisted)))))
      ]
    ]),
    All-map _ _ accounts
        (λ e h. (third-Ends done sent deleted).0 (inl e.0) ((second-Ends done sent).0 (inl e.0) h))
        (first-Ends done).1,
  )

-- The calls that attach_replica makes for the accounts and files of a primary, which its lists tell, and for the
-- manifest of a backup: where all of them succeed, they leave of what the manifest tells, each carried out in its
-- turn, the primary's version (hash and size) of each of its files, no other file, and the primary's accounts. The
-- backup's lists are those that the manifest's fields can carry.
pub resync-UpToDate :
    (answers : LinkCall → Bool) (source : FileKey → Option Version) (target : Bytes → Option Bytes)
    (accounts remote_accounts : List AccountEntry) (files remote : List FileEntry)
    → Holds source target accounts files
    → length remote_accounts < 2 ^ 32
    → length remote < 2 ^ 32
    → All FitsAccount remote_accounts
    → All FitsEntry remote
    → (manifest : Bytes) → write_manifest remote_accounts remote [] ≡ some manifest
    → (resync answers accounts files manifest).1 ≡ true
    → UpToDate source target accounts remote_accounts remote
        (resync answers accounts files manifest).0
unfolding resync
resync-UpToDate answers source target accounts remote_accounts files remote holds few_accounts few
      fits_accounts fits manifest wrote done =
    let carried =
      read_manifest-write_manifest remote_accounts remote few_accounts few fits_accounts fits in
    let read = Carries-whole manifest carried wrote in
    let t =
      bring_up_to_date answers accounts (file_map files []) (account_map remote_accounts [])
        (file_map remote []) [] in
    let ended : t.1 ≡ true = rw (read, resync) at done in
    let (d1, d2, d3, e) =
      bring_up_to_date-done answers source target accounts remote_accounts files remote holds t refl
        ended in
    rw (read, resync)
      (subst (UpToDate source target accounts remote_accounts remote) e
        (third-UpToDate answers source target accounts remote_accounts files remote holds d1 d2 d3))
