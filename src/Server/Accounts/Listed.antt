-- ===== src/Server/Accounts/Listed.antt =====
-- Accounts::all of server/accounts.cpp against `get`.
use sis_op.Base.{
  ◌≡◌, refl, ◌∙◌, Bool, true, false, none, List, [], ◌∷◌, if◌then◌else◌, Bool-cases, inl, inr,
  arith,
}
use sis_op.Base.Keys.{Bytes, same, bytes_key, eq_of_same}
use sis_op.Base.Dict.{lookup, keys}
use sis_op.Files.Names.{is_valid_username}
use sis_op.Server.Accounts
use sis_op.Server.Accounts.{AccountFiles, accounts_of}

abbrev has : Bytes → List Bytes → Bool
has user [] = false
has user (u ∷ users) = if same u user then true else has user users

lookup-unknown :
    (user : Bytes) (files : AccountFiles) → has user (keys files) ≡ false → lookup user files ≡ none
unfolding lookup
lookup-unknown user [] h = refl
lookup-unknown user ((u, account) ∷ files) h = ground (arith, lookup-unknown user files)

module _ (files : AccountFiles) (user : Bytes) where
  -- What the list has for the user.
  abbrev Listed : List Bytes → Type 0
  Listed users = lookup user (accounts_of users files) ≡ (
      if has user users
      then (if is_valid_username user then Accounts.get user files else none)
      else none)

  accounts_of-Listed : (users : List Bytes) → Listed users
  unfolding accounts_of lookup
  accounts_of-Listed [] = refl
  accounts_of-Listed (u ∷ users) = ground (arith, eq_of_same u user, accounts_of-Listed users)

  get-unknown : has user (keys files) ≡ false → Accounts.get user files ≡ none
  unfolding Accounts.get
  get-unknown h = rw (lookup-unknown user files h, Accounts.get) refl

  -- The list of all accounts has, for every user with a valid name, the record that `get` finds, and nothing for
  -- any other name.
  pub all-get :
      lookup user (Accounts.all files)
      ≡ (if is_valid_username user then Accounts.get user files else none)
  unfolding Accounts.all
  all-get = elim (Bool-cases (has user (keys files))) [
    | inl known ↦ rw known at (accounts_of-Listed (keys files))
    | inr unknown ↦
        (rw unknown at (accounts_of-Listed (keys files))) ∙ rw (get-unknown unknown) (ground arith)
  ]
