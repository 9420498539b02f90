-- ===== src/Server/Health/Recorded.antt =====
-- The states and the messages of the health monitor agree, and a check records what it finds.
use sis_op.Base.{
  ◌≡◌, refl, sym, ap, ◌∙◌, Bool, true, false, not, Option, none, some, if◌then◌else◌, Bool-cases,
  Option-cases, inl, inr,
}
use sis_op.Base.Keys.{Bytes, same, bytes_key, eq_of_same}
use sis_op.Base.Dict.{lookup, insert, lookup-insert, lookup-erase}
use sis_op.Server.Health.{
  Endpoint, Health, unknown, up, down, separate, split, key, health_eq, Monitor, state_of,
  record_state,
}

-- A problem is known of a server in this state.
abbrev pub is_problem : Health → Bool
is_problem unknown = false
is_problem up = false
is_problem _ = true

abbrev pub holds {ℓ} : {A : Type ℓ} → Option A → Bool
holds none = false
holds (some a) = true

-- There is a message for exactly the servers with a problem.
abbrev pub Agree : Monitor → Type 0
Agree m = (k : Bytes) → holds (lookup k m.messages) ≡ is_problem (state_of k m)

pub eq_of_health_eq : (a b : Health) → health_eq a b ≡ true → a ≡ b
unfolding health_eq
eq_of_health_eq unknown unknown h = refl
eq_of_health_eq up up h = refl
eq_of_health_eq down down h = refl
eq_of_health_eq separate separate h = refl
eq_of_health_eq split split h = refl
eq_of_health_eq a b h = cc h

states-record_state :
    (server : Endpoint) (now : Health) (detail : Bytes) (m : Monitor)
    → (record_state server now detail m).0.states ≡ insert (key server) now m.states
unfolding record_state
states-record_state server now detail m =
    elim (Bool-cases (health_eq now (state_of (key server) m))) [
      | inl e ↦ rw (e, record_state) refl
      | inr e ↦ elim (Bool-cases (health_eq now up)) [
        | inl u ↦ rw (e, u, record_state) refl
        | inr u ↦ rw (e, u, record_state) refl
      ]
    ]

state_in : Option Health → Health
state_in none = unknown
state_in (some h) = h

state_of-lookup : (k : Bytes) (m : Monitor) → state_of k m ≡ state_in (lookup k m.states)
unfolding state_of state_in
state_of-lookup k m = elim (Option-cases (lookup k m.states)) [
  | inl e ↦ rw (e, state_of) refl
  | inr (h, e) ↦ rw (e, state_of) refl
]

-- The state is recorded, and no other server's changes.
pub state_of-record_state :
    (server : Endpoint) (now : Health) (detail : Bytes) (m : Monitor) (k : Bytes)
    → state_of k (record_state server now detail m).0
      ≡ (if same (key server) k then now else state_of k m)
unfolding state_in
state_of-record_state server now detail m k =
    state_of-lookup k _
    ∙ rw
        (
          states-record_state server now detail m,
          lookup-insert (key server) k now m.states,
          state_of-lookup k m,
        )
        (elim (Bool-cases (same (key server) k)) [ inl e ↦ rw e refl | inr e ↦ rw e refl ])

-- A state that is found again changes nothing.
messages-unchanged :
    (server : Endpoint) (now : Health) (detail : Bytes) (m : Monitor)
    → health_eq now (state_of (key server) m) ≡ true
    → (record_state server now detail m).0.messages ≡ m.messages
unfolding record_state
messages-unchanged server now detail m e = rw (e, record_state) refl

pub state_of-unchanged :
    (server : Endpoint) (now : Health) (detail : Bytes) (m : Monitor) (k : Bytes)
    → health_eq now (state_of (key server) m) ≡ true
    → state_of k (record_state server now detail m).0 ≡ state_of k m
state_of-unchanged server now detail m k e =
    state_of-record_state server now detail m k ∙ elim (Bool-cases (same (key server) k)) [
      | inl s ↦
          rw s (eq_of_health_eq now _ e ∙ ap (λ k. state_of k m) (eq_of_same (key server) k s))
      | inr s ↦ rw s refl
    ]

-- The message after a change of the state, an improvement or a problem.
messages-record_state :
    (server : Endpoint) (now : Health) (detail : Bytes) (m : Monitor) (k : Bytes)
    → health_eq now (state_of (key server) m) ≡ false
    → holds (lookup k (record_state server now detail m).0.messages)
      ≡ (if same (key server) k then not (health_eq now up) else holds (lookup k m.messages))
unfolding record_state
messages-record_state server now detail m k changed = elim (Bool-cases (health_eq now up)) [
  | inl good ↦
      rw (changed, good, record_state)
        (rw (lookup-erase (key server) k m.messages)
          (elim (Bool-cases (same (key server) k)) [ inl e ↦ rw e refl | inr e ↦ rw e refl ]))
  | inr bad ↦
      rw (changed, bad, record_state)
        (rw (lookup-insert (key server) k _ m.messages)
          (elim (Bool-cases (same (key server) k)) [ inl e ↦ rw e refl | inr e ↦ rw e refl ]))
]

problem_up :
    (now : Health) → health_eq now unknown ≡ false → not (health_eq now up) ≡ is_problem now
unfolding health_eq
problem_up unknown h = cc h
problem_up up h = refl
problem_up down h = refl
problem_up separate h = refl
problem_up split h = refl

pub record_state-Agree :
    (server : Endpoint) (now : Health) (detail : Bytes) (m : Monitor)
    → health_eq now unknown ≡ false
    → Agree m
    → Agree (record_state server now detail m).0
unfolding record_state
record_state-Agree server now detail m known agree k =
    elim (Bool-cases (health_eq now (state_of (key server) m))) [
      | inl e ↦
          ap (λ messages. holds (lookup k messages)) (messages-unchanged server now detail m e)
          ∙ agree k
          ∙ ap is_problem (sym (state_of-unchanged server now detail m k e))
      | inr e ↦
          messages-record_state server now detail m k e
          ∙ rw (state_of-record_state server now detail m k)
              (elim (Bool-cases (same (key server) k)) [
                | inl s ↦ rw s (problem_up now known)
                | inr s ↦ rw s (agree k)
              ])
    ]
