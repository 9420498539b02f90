-- ===== src/Server/Resync/Exchanges.antt =====
-- The calls of attach_replica, carried out on what the backup's manifest tells.
use sis_op.Base.{
  ◌≡◌, refl, sym, ap, ◌∙◌, subst, Bool, Option, none, some, List, [], ◌∷◌, Bool-cases, inl, inr,
  ◌⊎◌, if◌then◌else◌,
}
use sis_op.Base.Keys.{Bytes, same, bytes_key, pair_key, eq_of_same, same_self}
use sis_op.Files.Info.{FileInfo, Version}
use sis_op.Server.Resync.Each.{Settles}
use sis_op.Server.Manifest.{AccountEntry}
use sis_op.Server.Resync.{FileKey, LinkCall, account_call, put_call, delete_call, make}

-- What a ReplPut, a ReplDelete and a ReplAccount ask for: the primary's version of a file under its key, no
-- file, and a user's record. `source` is what the primary holds; the last call is the first of the list.
module _ (source : FileKey → Option Version) (files : FileKey → Option Version) where
  abbrev pub file_after : List LinkCall → FileKey → Option Version
  file_after [] k = files k
  file_after (put_call key ∷ calls) k = if same key k then source key else file_after calls k
  file_after (delete_call key ∷ calls) k = if same key k then none else file_after calls k
  file_after (account_call user account ∷ calls) k = file_after calls k

module _ (accounts : Bytes → Option Bytes) where
  abbrev pub account_after : List LinkCall → Bytes → Option Bytes
  account_after [] j = accounts j
  account_after (put_call key ∷ calls) j = account_after calls j
  account_after (delete_call key ∷ calls) j = account_after calls j
  account_after (account_call user account ∷ calls) j =
      if same user j then some account else account_after calls j

module _ (answers : LinkCall → Bool) (source files : FileKey → Option Version)
    (accounts target : Bytes → Option Bytes) where
  abbrev pub put : List LinkCall → FileKey → List LinkCall × Bool
  put s key = make answers (put_call key) s

  abbrev pub delete : List LinkCall → FileKey → List LinkCall × Bool
  delete s key = make answers (delete_call key) s

  abbrev pub put_account : List LinkCall → Bytes → Bytes → List LinkCall × Bool
  put_account s user account = make answers (account_call user account) s

  abbrev file : List LinkCall → FileKey → Option Version
  file s key = file_after source files s key

  abbrev account_of : List LinkCall → Bytes → Option Bytes
  account_of s user = account_after accounts s user

  -- The backup has the primary's account of a user, or the primary's file.
  abbrev pub Settled : List LinkCall → Bytes ⊎ FileKey → Type 0
  Settled s (inl user) = account_of s user ≡ target user
  Settled s (inr key) = file s key ≡ source key

  pub put-Settles : (e : FileKey × FileInfo) → Settles (λ s e. put s e.0) Settled (λ e. inr e.0) e
  put-Settles (key, info) s done = (
    rw (same_self key) refl,
    elim [
      | inl user ↦ λ h. h
      | inr k ↦ λ h. elim (Bool-cases (same key k)) [
        | inl eq ↦
            subst (λ k. file (put s key).0 k ≡ source k) (eq_of_same key k eq)
              (rw (same_self key) refl)
        | inr ne ↦ rw ne h
      ]
    ],
  )

  pub delete-Settles :
      (e : FileKey × FileInfo)
      → source e.0 ≡ none
      → Settles (λ s e. delete s e.0) Settled (λ e. inr e.0) e
  delete-Settles (key, info) gone s done =
      let here : file (delete s key).0 key ≡ source key = rw (same_self key) (sym gone) in
      (
        here,
        elim [
          | inl user ↦ λ h. h
          | inr k ↦ λ h. elim (Bool-cases (same key k)) [
            | inl eq ↦ subst (λ k. file (delete s key).0 k ≡ source k) (eq_of_same key k eq) here
            | inr ne ↦ rw ne h
          ]
        ],
      )

  pub put_account-Settles :
      (e : AccountEntry)
      → target e.0 ≡ some e.1
      → Settles (λ s e. put_account s e.0 e.1) Settled (λ e. inl e.0) e
  put_account-Settles (user, account) here s done = (
    rw (same_self user) (sym here),
    elim [
      | inl j ↦ λ h. elim (Bool-cases (same user j)) [
        | inl eq ↦ rw eq (sym here ∙ ap target (eq_of_same user j eq))
        | inr ne ↦ rw ne h
      ]
      | inr k ↦ λ h. h
    ],
  )
