-- ===== src/Server/Login.antt =====
-- authenticate and the login of serve_client, server/server.cpp. Other threads may run between the
-- critical sections of `authenticate`: what they do to the accounts is an argument, as are the bytes
-- that RAND_bytes gives and whether the file system accepts a write or makes a folder.
pub mod Granted
use sis_op.Base.{
  ℕ, Bool, true, false, not, ◌&&◌, ◌||◌, Option, none, some, List, [], ◌∷◌, length, ltb, ◌==◌,
  if◌then◌else◌,
}
use sis_op.Base.Keys.{Bytes}
use sis_op.Protocol.Names.{text}
use sis_op.Protocol.Address.{ServerAddress}
use sis_op.Files.Names.{is_valid_username}
use sis_op.Server.Sessions.{SessionManager, open_session}
use sis_op.Server.Accounts.{
  AccountFiles, get, create, Derive, make_record, verify, min_password_length, max_password_length,
}
use sis_op.Server.Cluster.{Cluster, is_primary, primary_address}

-- `created` calls for the account's replication before the login goes on.
pub data Authenticated : Type 0 where
  created granted : Authenticated
  refused : Bytes → Authenticated

unfoldable pub check : Derive → Bytes → Bytes → Authenticated
check derive account password =
    if verify derive account password then granted else refused (text "wrong password")

-- The critical section under write_mutex_.
unfoldable pub create_account : Bool → Bytes → Bytes → AccountFiles → AccountFiles × Bool
create_account written user account files =
    if length account == 0 then (files, false) else create written user account files

-- The code after the critical section.
unfoldable pub after_creation :
    Derive → Bytes → Bytes → AccountFiles × Bool → AccountFiles × Authenticated
after_creation derive user password (files, true) = (files, created)
after_creation derive user password (files, false) = elim (get user files) [
  | none ↦ (files, refused (text "the server could not create the account"))
  | some account ↦ (files, check derive account password)
]

unfoldable pub authenticate :
    Derive
    → Option Bytes
    → Bool
    → (AccountFiles → AccountFiles)
    → Bytes
    → Bytes
    → AccountFiles
    → AccountFiles × Authenticated
authenticate derive salt written others user password files = elim (get user files) [
  | some account ↦ (files, check derive account password)
  | none ↦
      after_creation derive user password
        (create_account written user (make_record derive salt password) (others files))
]

-- The parts of the server that a login reads and changes.
pub record Desk : Type 0 where
  pub cluster : Cluster
  pub accounts : AccountFiles
  pub sessions : SessionManager

pub data Reply : Type 0 where
  redirect : Option ServerAddress → Reply
  denied : Bytes → Reply
  login_ok : Bytes → List ServerAddress → Reply

-- What a login finds: the random bytes for the salt and the token, and how the file system answers.
pub record Chance : Type 0 where
  pub salt : Option Bytes
  pub token : Option Bytes
  pub written : Bool
  pub folder : Bool
  pub others : AccountFiles → AccountFiles

unfoldable pub is_valid_password : Bytes → Bool
is_valid_password password =
    not (ltb (length password) min_password_length || ltb max_password_length (length password))

unfoldable pub welcome : Desk → SessionManager × Bytes → Desk × Reply
welcome d (sessions, token) =
    if length token == 0
    then (record d { sessions = sessions }, denied (text "this user already has 2 active sessions"))
    else (record d { sessions = sessions }, login_ok token d.cluster.members)

unfoldable pub enter : Chance → ℕ → Bytes → Desk → Authenticated → Desk × Reply
enter chance conn user d (refused reason) = (d, denied reason)
enter chance conn user d _ =
    if chance.folder
    then welcome d (open_session user conn chance.token d.sessions)
    else (d, denied (text "the server could not create the user's directory"))

-- serve_client up to its answer to the login.
unfoldable pub login : Derive → Chance → ℕ → Bytes → Bytes → Desk → Desk × Reply
login derive chance conn user password d =
    let (files, result) =
      authenticate derive chance.salt chance.written chance.others user password d.accounts in
    let entered = enter chance conn user (record d { accounts = files }) result in
    if not (is_primary d.cluster.role)
    then (d, redirect (primary_address d.cluster))
    else if not (is_valid_username user)
    then (
      d,
      denied (text "invalid username (use letters, digits, '_' or '-', up to 32 characters)"),
    )
    else if not (is_valid_password password)
    then (d, denied (text "passwords must have between 6 and 256 characters"))
    else entered
