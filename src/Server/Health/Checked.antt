-- ===== src/Server/Health/Checked.antt =====
-- A check of the health monitor records what it finds, and reports a change once.
use sis_op.Base.{
  ℕ, ◌≡◌, ◌⊎◌, refl, ◌∙◌, Bool, true, false, Option, none, some, List, [], ◌∷◌, All, length,
  Bool-cases, Option-cases, if-both, inl, inr, arith,
}
use sis_op.Base.Keys.{Bytes, same, bytes_key, same_self, same_flip}
use sis_op.Protocol.Address.{ServerAddress}
use sis_op.Server.Cluster.{Cluster, primary_address}
use sis_op.Server.Health.Recorded.{
  Agree, state_of-record_state, record_state-Agree, state_of-unchanged,
}
use sis_op.Server.Health.{
  read_status, is_self, visit, is_member, Endpoint, Health, unknown, up, down, separate, split, key,
  health_eq, find, probe, judge, Monitor, state_of, record_state, check_all, check,
}

health_eq_self : (a : Health) → health_eq a a ≡ true
unfolding health_eq
health_eq_self unknown = refl
health_eq_self up = refl
health_eq_self down = refl
health_eq_self separate = refl
health_eq_self split = refl

changes-unchanged :
    (server : Endpoint) (now : Health) (detail : Bytes) (m : Monitor)
    → health_eq now (state_of (key server) m) ≡ true
    → (record_state server now detail m).1 ≡ []
unfolding record_state
changes-unchanged server now detail m e = rw (e, record_state) refl

judge-known :
    (resolve : Bytes → Bytes) (server : Endpoint) (ours : Option ServerAddress)
    (status : ℕ × Bool × ServerAddress)
    → health_eq (judge resolve server ours status).0 unknown ≡ false
unfolding judge health_eq
judge-known resolve server ours status = ground arith

probe-known :
    (resolve : Bytes → Bytes) (server : Endpoint) (ours : Option ServerAddress)
    (reply : Option Bytes)
    → health_eq (probe resolve server ours reply).0 unknown ≡ false
unfolding probe health_eq
probe-known resolve server ours none = refl
probe-known resolve server ours (some payload) = elim (Option-cases (read_status payload)) [
  | inl e ↦ rw (e, probe) refl
  | inr ((status, rest), e) ↦ rw (e, probe) (judge-known resolve server ours status)
]

module _ (resolve : Bytes → Bytes) (reply : Endpoint → Option Bytes) (c : Cluster) where
  -- The state that a check finds a server in.
  abbrev found : Endpoint → Health
  found server = (find resolve reply c server).0

  found-known : (server : Endpoint) → health_eq (found server) unknown ≡ false
  unfolding find health_eq
  found-known server =
      if-both (λ (f : Health × Bytes). health_eq f.0 unknown ≡ false)
        (is_member resolve server c.members) refl
        (probe-known resolve server (primary_address c) (reply server))

  visit-Agree :
      (server : Endpoint) (m : Monitor) → Agree m → Agree (visit resolve reply c server m).0
  unfolding visit
  visit-Agree server m agree =
      if-both (λ (t : Monitor × List Bytes × Bool). Agree t.0) (is_self resolve reply c server)
        agree (record_state-Agree server (found server) _ m (found-known server) agree)

  check_all-Agree :
      (listed : ℕ) (servers : List Endpoint) (m : Monitor)
      → Agree m
      → Agree (check_all resolve reply c listed servers m).0
  unfolding check_all
  check_all-Agree listed [] m agree = agree
  check_all-Agree listed (server ∷ servers) m agree =
      check_all-Agree listed servers _ (visit-Agree server m agree)

  -- Where the monitor has a message for exactly the servers that it knows a problem of, it has so after a
  -- check, whatever the network answers.
  pub check-Agree :
      (expected : List Endpoint) (m : Monitor)
      → Agree m
      → Agree (check resolve reply c expected m).0
  unfolding check
  check-Agree expected m agree = check_all-Agree (length expected) expected m agree

  -- The state is recorded of every one of these servers that is not this one.
  abbrev pub Known : List Endpoint → Monitor → Type 0
  Known servers m =
      All (λ s. (is_self resolve reply c s ≡ true) ⊎ (state_of (key s) m ≡ found s)) servers

  -- No two servers of the list have the same key.
  abbrev pub Distinct : List Endpoint → Type 0
  Distinct [] = Unit {0}
  Distinct (server ∷ servers) =
      All (λ s. same (key server) (key s) ≡ false) servers × Distinct servers

  state_of-visit :
      (server : Endpoint) (m : Monitor) (k : Bytes)
      → same (key server) k ≡ false
      → state_of k (visit resolve reply c server m).0 ≡ state_of k m
  unfolding visit
  state_of-visit server m k ne =
      if-both (λ (t : Monitor × List Bytes × Bool). state_of k t.0 ≡ state_of k m)
        (is_self resolve reply c server) refl
        (state_of-record_state server (found server) _ m k ∙ rw ne refl)

  visit-found :
      (server : Endpoint) (m : Monitor)
      → (is_self resolve reply c server ≡ true)
        ⊎ (state_of (key server) (visit resolve reply c server m).0 ≡ found server)
  unfolding visit
  visit-found server m = elim (Bool-cases (is_self resolve reply c server)) [
    | inl me ↦ inl me
    | inr other ↦ inr (
        rw (other, visit)
          (state_of-record_state server (found server) _ m (key server)
            ∙ rw (same_self (key server)) refl))
  ]

  state_of-check_all :
      (listed : ℕ) (servers : List Endpoint) (m : Monitor) (k : Bytes)
      → All (λ s. same k (key s) ≡ false) servers
      → state_of k (check_all resolve reply c listed servers m).0 ≡ state_of k m
  unfolding check_all
  state_of-check_all listed [] m k distinct = refl
  state_of-check_all listed (server ∷ servers) m k distinct =
      state_of-check_all listed servers _ k distinct.1
      ∙ state_of-visit server m k (same_flip k (key server) distinct.0)

  Known-states :
      (servers : List Endpoint) (m m' : Monitor)
      → ((k : Bytes) → state_of k m' ≡ state_of k m)
      → Known servers m
      → Known servers m'
  Known-states [] m m' states known = tt
  Known-states (server ∷ servers) m m' states known = (
    elim (known.0) [ inl me ↦ inl me | inr here ↦ inr (states (key server) ∙ here) ],
    Known-states servers m m' states known.1,
  )

  check_all-Known :
      (listed : ℕ) (servers : List Endpoint) (m : Monitor)
      → Distinct servers
      → Known servers (check_all resolve reply c listed servers m).0
  unfolding check_all
  check_all-Known listed [] m distinct = tt
  check_all-Known listed (server ∷ servers) m distinct =
      let later =
        state_of-check_all listed servers (visit resolve reply c server m).0 (key server)
          distinct.0 in
      (
        elim (visit-found server m) [ inl me ↦ inl me | inr here ↦ inr (later ∙ here) ],
        check_all-Known listed servers _ distinct.1,
      )

  -- A server whose state is known is not reported, and no state changes.
  Quiet : Endpoint → Monitor → Type 0
  Quiet server m =
      ((visit resolve reply c server m).1 ≡ [])
      × ((k : Bytes) → state_of k (visit resolve reply c server m).0 ≡ state_of k m)

  visit-Quiet :
      (server : Endpoint) (m : Monitor)
      → (is_self resolve reply c server ≡ true) ⊎ (state_of (key server) m ≡ found server)
      → Quiet server m
  unfolding visit Quiet
  visit-Quiet server m (inl me) = rw (me, visit) (refl, λ k. refl)
  visit-Quiet server m (inr here) = elim (Bool-cases (is_self resolve reply c server)) [
    | inl me ↦ rw (me, visit) (refl, λ k. refl)
    | inr other ↦
        let same_state : health_eq (found server) (state_of (key server) m) ≡ true =
          rw here (health_eq_self (found server)) in
        rw (other, visit)
          (
            changes-unchanged server (found server) _ m same_state,
            λ k. state_of-unchanged server (found server) _ m k same_state,
          )
  ]

  check_all-Quiet :
      (listed : ℕ) (servers : List Endpoint) (m : Monitor)
      → Known servers m
      → (check_all resolve reply c listed servers m).1 ≡ []
  unfolding check_all Quiet
  check_all-Quiet listed [] m known = refl
  check_all-Quiet listed (server ∷ servers) m known =
      let (none_here, states) = visit-Quiet server m known.0 in
      rw none_here (check_all-Quiet listed servers _ (Known-states servers m _ states known.1))

  -- Of servers with different keys: after a check the monitor knows the state of each that is not this one, and a second
  -- check that finds every server in the same state notifies of nothing.
  pub check-Quiet :
      (expected : List Endpoint) (m : Monitor)
      → Distinct expected
      → Known expected (check resolve reply c expected m).0
        × ((check resolve reply c expected (check resolve reply c expected m).0).1 ≡ [])
  unfolding check
  check-Quiet expected m distinct =
      let known = check_all-Known (length expected) expected m distinct in
      (known, rw (check_all-Quiet (length expected) expected _ known) refl)
