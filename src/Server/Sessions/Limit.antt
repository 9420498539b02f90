-- ===== src/Server/Sessions/Limit.antt =====
-- No user ever has more than two sessions, and a session is known by its token alone.
use sis_op.Base.{
  ℕ, suc, ◌≤◌, ◌<◌, ◌≡◌, ◌≢◌, refl, false, Option, none, some, List, [], ◌∷◌, arith, length, leb,
  ◌==◌, if◌then◌else◌, Bool-cases, Option-cases, inl, inr,
}
use sis_op.Base.Keys.{Bytes, same, bytes_key, bytes_cmp-eq, bytes_cmp_self}
use sis_op.Base.Dict.{lookup, insert, erase, modify, lookup-insert}
use sis_op.Server.Sessions.{
  Session, SessionManager, max_sessions_per_user, random_token, count, is_none, open_session,
  open_with, close_session, attach_sync, detach_sync,
}

count-insert :
    (user token : Bytes) (s : Session) (d : SessionManager)
    → lookup token d ≡ none
    → count user (insert token s d)
      ≡ (if same s.user user then suc (count user d) else count user d)
unfolding count insert lookup
count-insert user token s [] h = refl
count-insert user token s ((j, w) ∷ d) h =
    ground (arith, bytes_cmp-eq token j, bytes_cmp_self j, count-insert user token s d)

count-erase : (user token : Bytes) (d : SessionManager) → count user (erase token d) ≤ count user d
unfolding count erase
count-erase user token [] = omega arith
count-erase user token ((j, w) ∷ d) = ground (arith, count-erase user token d)

count-modify :
    (user token : Bytes) (f : Session → Session) (d : SessionManager)
    → ((s : Session) → (f s).user ≡ s.user)
    → count user (modify token f d) ≡ count user d
unfolding count modify
count-modify user token f [] h = refl
count-modify user token f ((j, w) ∷ d) h = ground (arith, h w, count-modify user token f d h)

-- The calls of the class, with what the environment gives them.
pub data Call : Type 0 where
  opens : Bytes → ℕ → Option Bytes → Call
  closes : Bytes → Call
  attaches detaches : Bytes → ℕ → Call

unfoldable pub step : Call → SessionManager → SessionManager
step (opens user command random) d = (open_session user command random d).0
step (closes token) d = (close_session token d).0
step (attaches token sync) d = (attach_sync token sync d).0
step (detaches token sync) d = detach_sync token sync d

unfoldable pub run : List Call → SessionManager → SessionManager
run [] d = d
run (c ∷ cs) d = run cs (step c d)

abbrev pub WithinLimit : SessionManager → Type 0
WithinLimit d = (user : Bytes) → count user d ≤ max_sessions_per_user

open-WithinLimit :
    (user : Bytes) (command : ℕ) (random : Option Bytes) (d : SessionManager)
    → WithinLimit d
    → WithinLimit (open_session user command random d).0
unfolding open_session open_with is_none
open-WithinLimit user command random d h u = ground (
  arith,
  h u,
  bytes_cmp-eq user u,
  count-insert u (random_token random) (record { user = user; command = command; sync = none }) d,
)

step-WithinLimit : (c : Call) (d : SessionManager) → WithinLimit d → WithinLimit (step c d)
unfolding step close_session attach_sync detach_sync
step-WithinLimit (opens user command random) d h = open-WithinLimit user command random d h
step-WithinLimit (closes token) d h = λ u. ground (arith, h u, count-erase u token d)
step-WithinLimit (attaches token sync) d h = λ u.
    ground (arith, h u, count-modify u token (λ t. record t { sync = some sync }) d (λ s. refl))
step-WithinLimit (detaches token sync) d h =
    λ u. ground (arith, h u, count-modify u token (λ t. record t { sync = none }) d (λ s. refl))

run-WithinLimit : (cs : List Call) (d : SessionManager) → WithinLimit d → WithinLimit (run cs d)
unfolding run
run-WithinLimit [] d h = h
run-WithinLimit (c ∷ cs) d h = run-WithinLimit cs (step c d) (step-WithinLimit c d h)

-- After any calls on a new manager, whatever the random bytes are, no user has more than two
-- sessions.
pub run-le : (cs : List Call) (user : Bytes) → count user (run cs []) ≤ max_sessions_per_user
unfolding count
run-le cs = run-WithinLimit cs [] (λ user. omega arith)

-- What `open` promises of the sessions and the token that it returns.
pub data Opened (user : Bytes) (command : ℕ) (d d' : SessionManager) (token : Bytes) : Type 0 where
  refused : token ≡ [] → d' ≡ d → Opened user command d d' token
  opened :
      token ≢ []
      → lookup token d ≡ none
      → count user d < max_sessions_per_user
      → ((j : Bytes)
          → lookup j d' ≡ (
              if same token j
              then some (record { user = user; command = command; sync = none })
              else lookup j d))
      → Opened user command d d' token

open_with_lem :
    (user : Bytes) (command : ℕ) (token : Bytes) (d : SessionManager)
    → count user d < max_sessions_per_user
    → let s : Session = record { user = user; command = command; sync = none } in
      Opened user command d (open_with token s d).0 (open_with token s d).1
unfolding open_with is_none
open_with_lem user command [] d room = refused refl refl
open_with_lem user command (c ∷ cs) d room = elim (Option-cases (lookup (c ∷ cs) d)) [
  | inl fresh ↦
      rw (fresh, some_char) (opened (λ e. cc) fresh room (λ j. lookup-insert (c ∷ cs) j _ d))
  | inr (s, taken) ↦ rw (taken, some_char) (refused refl refl)
]
  where
    some_char : (length (c ∷ cs) == 0) ≡ false
    some_char = ground arith

-- `open` either answers with no token and changes nothing, or adds one session for the user under
-- a token that no session had, when the user had fewer than two, and leaves the other sessions alone.
pub open_session_lem :
    (user : Bytes) (command : ℕ) (random : Option Bytes) (d : SessionManager)
    → Opened user command d
        (open_session user command random d).0
        (open_session user command random d).1
unfolding open_session
open_session_lem user command random d =
    elim (Bool-cases (leb max_sessions_per_user (count user d))) [
      | inl full ↦ rw full (refused refl refl)
      | inr room ↦ rw room (open_with_lem user command (random_token random) d (ground arith))
    ]
