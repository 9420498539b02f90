-- ===== src/Server/Login/Granted.antt =====
-- Who is let in: a login that is granted was checked against the account's record.
use sis_op.Base.{
  ℕ, ◌≡◌, ◌≢◌, ◌⊎◌, ◌↔◌, refl, ◌∙◌, ◌<◌, ap, subst, List, [], sym, Bool, true, false, Option, none,
  some, length, Bool-cases, Option-cases, inl, inr, ◌==◌,
}
use sis_op.Base.Keys.{Bytes, same_self, bytes_key}
use sis_op.Base.Dict.{lookup, insert, lookup-insert}
use sis_op.Server.Sessions.{is_none}
use sis_op.Server.Accounts.{
  AccountFiles, get, write, create, Derive, make_record, verify, is_valid_record, iterations,
}
use sis_op.Server.Accounts.Records.{IsDerived, verify-make_record}
use sis_op.Protocol.Address.{ServerAddress}
use sis_op.Files.Names.{is_valid_username}
use sis_op.Server.Cluster.{is_primary}
use sis_op.Server.Sessions.{SessionManager, max_sessions_per_user, count, open_session}
use sis_op.Server.Sessions.Limit.{Opened, opened, open_session_lem}
use sis_op.Server.Login.{
  Desk, Chance, Reply, login_ok, welcome, enter, login, is_valid_password, Authenticated, created,
  granted, refused, check, create_account, after_creation, authenticate,
}

-- The login was refused, or the accounts hold a record for the user that the password passes.
abbrev pub Verified : Derive → Bytes → Bytes → AccountFiles × Authenticated → Type 0
Verified derive user password out =
    ((reason : Bytes) × (out.1 ≡ refused reason))
    ⊎ ((account : Bytes) × (get user out.0 ≡ some account)
        × (verify derive account password ≡ true))

check-Verified :
    (derive : Derive) (user password account : Bytes) (files : AccountFiles)
    → get user files ≡ some account
    → Verified derive user password (files, check derive account password)
unfolding check
check-Verified derive user password account files e =
    elim (Bool-cases (verify derive account password)) [
      | inl ok ↦ rw ok (inr (account, e, ok))
      | inr bad ↦ rw bad (inl (_, refl))
    ]

lookup-inserted :
    (user account : Bytes) (files : AccountFiles)
    → lookup user (insert user account files) ≡ some account
lookup-inserted user account files = rw lookup-insert (rw (same_self user) refl)

get-insert :
    (user account : Bytes) (files : AccountFiles)
    → is_valid_record account ≡ true
    → get user (insert user account files) ≡ some account
unfolding get
get-insert user account files valid = rw (lookup-inserted user account files, get) (rw valid refl)

-- An account that was created is there, with the record given.
create_account-get :
    (written : Bool) (user account : Bytes) (files : AccountFiles)
    → is_valid_record account ≡ true
    → (create_account written user account files).1 ≡ true
    → get user (create_account written user account files).0 ≡ some account
unfolding create_account create write
create_account-get written user account files valid done = elim (Bool-cases (length account == 0)) [
  | inl empty ↦ cc (rw empty at done)
  | inr some_record ↦ elim (Bool-cases (is_none (lookup user files))) [
    | inr taken ↦ cc (rw (some_record, taken) at done)
    | inl fresh ↦ elim (Bool-cases written) [
      | inr failed ↦ cc (rw (some_record, fresh, failed) at done)
      | inl ok ↦ rw (some_record, fresh, ok) (get-insert user account files valid)
    ]
  ]
]

after_creation-Verified :
    (derive : Derive) (user password account : Bytes) (out : AccountFiles × Bool)
    → (out.1 ≡ true → get user out.0 ≡ some account)
    → verify derive account password ≡ true
    → Verified derive user password (after_creation derive user password out)
unfolding after_creation
after_creation-Verified derive user password account (files, true) made ok =
    inr (account, made refl, ok)
after_creation-Verified derive user password account (files, false) made ok =
    elim (Option-cases (get user files)) [
      | inl e ↦ rw (e, after_creation) (inl (_, refl))
      | inr (other, e) ↦ rw (e, after_creation) (check-Verified derive user password other files e)
    ]

-- Whatever other threads do to the accounts meanwhile, and whether or not the account file can be
-- written: an authentication is refused, or the accounts then hold a record for the user that the
-- password passes; if the salt drawn and the password derive a hash.
pub authenticate-Verified :
    (derive : Derive) (salt password hash : Bytes)
    → IsDerived derive salt password hash
    → (written : Bool) (others : AccountFiles → AccountFiles) (user : Bytes) (files : AccountFiles)
    → Verified derive user password
        (authenticate derive (some salt) written others user password files)
unfolding authenticate
authenticate-Verified derive salt password hash d written others user files =
    elim (Option-cases (get user files)) [
      | inr (account, e) ↦
          rw (e, authenticate) (check-Verified derive user password account files e)
      | inl e ↦
          rw (e, authenticate)
            (after_creation-Verified derive user password (make_record derive (some salt) password)
              _
              (create_account-get written user (make_record derive (some salt) password)
                (others files) made.0)
              made.1)
    ]
  where
    made :
        let account = make_record derive (some salt) password in
        (is_valid_record account ≡ true)
        × (verify derive account password ≡ true)
        × ((verify derive account password ≡ true) ↔ (derive password salt iterations ≡ some hash))
    made = verify-make_record derive salt password password hash d

-- The account of a user that has one is never changed by a login.
authenticate-keeps :
    (derive : Derive) (salt : Option Bytes) (written : Bool) (others : AccountFiles → AccountFiles)
    (user password account : Bytes) (files : AccountFiles)
    → get user files ≡ some account
    → (authenticate derive salt written others user password files).0 ≡ files
unfolding authenticate
authenticate-keeps derive salt written others user password account files e =
    rw (e, authenticate) refl

-- What a granted login has passed, and the session that it has.
pub record LetIn (derive : Derive) (conn : ℕ) (user password token : Bytes) (d d' : Desk)
    : Type 0 where
  pub leads : is_primary d.cluster.role ≡ true
  pub user_ok : is_valid_username user ≡ true
  pub password_ok : is_valid_password password ≡ true
  pub verified :
      (account : Bytes) × (get user d'.accounts ≡ some account)
      × (verify derive account password ≡ true)
  pub room : count user d.sessions < max_sessions_per_user
  pub session :
      lookup token d'.sessions ≡ some (record { user = user; command = conn; sync = none })

-- The session that `welcome` reports was opened by this login.
opened-session :
    (user : Bytes) (conn : ℕ) (random : Option Bytes) (d : SessionManager)
    → ((length (open_session user conn random d).1 == 0) ≡ false)
    → (count user d < max_sessions_per_user)
      × (lookup (open_session user conn random d).1 (open_session user conn random d).0
          ≡ some (record { user = user; command = conn; sync = none }))
opened-session user conn random d e = elim (open_session_lem user conn random d) [
  | opened some_token fresh room lookups ↦
      (room, lookups _ ∙ rw (same_self (open_session user conn random d).1) refl)
  | Opened.refused no_token same_sessions ↦ cc (rw no_token at e)
]

abbrev token_of : Reply → Bytes
token_of (login_ok token members) = token
token_of r = []

-- The accounts of a desk that let the user in, and the user's new session.
abbrev Entered : ℕ → Bytes → Bytes → Desk → Desk → Type 0
Entered conn user token d d' =
    (d'.accounts ≡ d.accounts)
    × (count user d.sessions < max_sessions_per_user)
    × (lookup token d'.sessions ≡ some (record { user = user; command = conn; sync = none }))

welcome-Entered :
    (user : Bytes) (conn : ℕ) (random : Option Bytes) (d : Desk) (token : Bytes)
    (members : List ServerAddress)
    → (welcome d (open_session user conn random d.sessions)).1 ≡ login_ok token members
    → Entered conn user token d (welcome d (open_session user conn random d.sessions)).0
unfolding welcome
welcome-Entered user conn random d token members h =
    elim (Bool-cases (length (open_session user conn random d.sessions).1 == 0)) [
      | inl none_left ↦ cc (rw none_left at h)
      | inr e ↦ rw e (
          let (room, session) = opened-session user conn random d.sessions e in
          let same_token = ap token_of (rw e at h) in
          (
            refl,
            room,
            subst
                (λ t.
                  lookup t (open_session user conn random d.sessions).0
                  ≡ some (record { user = user; command = conn; sync = none }))
                same_token session,
          ))
    ]

entered :
    (chance : Chance) (conn : ℕ) (user : Bytes) (d : Desk) (r : Authenticated) (token : Bytes)
    (members : List ServerAddress)
    → (enter chance conn user d r).1 ≡ login_ok token members
    → ((reason : Bytes) → r ≢ refused reason)
      × Entered conn user token d (enter chance conn user d r).0
unfolding enter
entered chance conn user d (refused reason) token members h = cc h
entered chance conn user d created token members h = elim (Bool-cases chance.folder) [
  | inr no_folder ↦ cc (rw no_folder at h)
  | inl e ↦
      rw e
        ((λ reason eq. cc eq), welcome-Entered user conn chance.token d token members (rw e at h))
]
entered chance conn user d granted token members h = elim (Bool-cases chance.folder) [
  | inr no_folder ↦ cc (rw no_folder at h)
  | inl e ↦
      rw e
        ((λ reason eq. cc eq), welcome-Entered user conn chance.token d token members (rw e at h))
]

-- A login whose authentication has this result, past the tests on the role, the name and the password.
enter-LetIn :
    (derive : Derive) (chance : Chance) (conn : ℕ) (user password token : Bytes) (d : Desk)
    (members : List ServerAddress) (out : AccountFiles × Authenticated)
    → Verified derive user password out
    → is_primary d.cluster.role ≡ true
    → is_valid_username user ≡ true
    → is_valid_password password ≡ true
    → (enter chance conn user (record d { accounts = out.0 }) out.1).1 ≡ login_ok token members
    → LetIn derive conn user password token d
        (enter chance conn user (record d { accounts = out.0 }) out.1).0
enter-LetIn derive chance conn user password token d members out verified leads user_ok password_ok
      h =
    let (let_in, (same_accounts, room, session)) =
      entered chance conn user (record d { accounts = out.0 }) out.1 token members h in
    elim verified [
      | inl (reason, e) ↦ absurd (let_in reason e)
      | inr (account, e, ok) ↦ record {
        leads = leads;
        user_ok = user_ok;
        password_ok = password_ok;
        verified = (account, ap (get user) same_accounts ∙ e, ok);
        room = room;
        session = session;
      }
    ]

login-enter :
    (derive : Derive) (chance : Chance) (conn : ℕ) (user password : Bytes) (d : Desk)
    → is_primary d.cluster.role ≡ true
    → is_valid_username user ≡ true
    → is_valid_password password ≡ true
    → let out =
        authenticate derive chance.salt chance.written chance.others user password d.accounts in
      login derive chance conn user password d
      ≡ enter chance conn user (record d { accounts = out.0 }) out.1
unfolding login
login-enter derive chance conn user password d leads user_ok password_ok =
    rw (leads, user_ok, password_ok) refl

-- Whatever other threads do to the accounts meanwhile: a login that is answered with LoginOk was made on
-- the primary, under a valid name, with a password of a length allowed that passes the user's record,
-- and has a session for the user, who had fewer than two; if the salt drawn and the password derive a
-- hash.
pub login-LetIn :
    (derive : Derive) (salt password hash : Bytes)
    → IsDerived derive salt password hash
    → (chance : Chance) → chance.salt ≡ some salt
    → (conn : ℕ) (user : Bytes) (d : Desk) (token : Bytes) (members : List ServerAddress)
    → (login derive chance conn user password d).1 ≡ login_ok token members
    → LetIn derive conn user password token d (login derive chance conn user password d).0
unfolding login
login-LetIn derive salt password hash derived chance drawn conn user d token members h =
    elim (Bool-cases (is_primary d.cluster.role)) [
      | inr backup ↦ cc (rw backup at h)
      | inl leads ↦ elim (Bool-cases (is_valid_username user)) [
        | inr bad ↦ cc (rw (leads, bad) at h)
        | inl user_ok ↦ elim (Bool-cases (is_valid_password password)) [
          | inr bad ↦ cc (rw (leads, user_ok, bad) at h)
          | inl password_ok ↦
              let e = login-enter derive chance conn user password d leads user_ok password_ok in
              let checked =
                authenticate-Verified derive salt password hash derived chance.written chance.others
                  user d.accounts in
              subst (λ out. LetIn derive conn user password token d out.0) (sym e)
                (enter-LetIn derive chance conn user password token d members _
                  (rw (sym drawn) at checked) leads user_ok password_ok (rw e at h))
        ]
      ]
    ]
