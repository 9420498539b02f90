-- ===== src/Server/Cluster/Election.antt =====
-- The election: the highest live server leads, and no two do.
use sis_op.Base.{
  ℕ, ◌<◌, ◌≡◌, ◌≢◌, ◌⊎◌, refl, Bool, true, false, List, [], ◌∷◌, ltb, keep, All, arith, Bool-cases,
  inl, inr, lt→ltb, ltb→lt, ◌↔◌,
}
use sis_op.Protocol.Address.{ServerAddress}
use sis_op.Server.Cluster.{
  Cluster, is_primary, higher_members, begin_election, any_alive, take_over, election_round,
}

-- No member that outranks this server answers.
abbrev pub Unrivalled : (ServerAddress → Bool) → Cluster → Type 0
Unrivalled alive c = All (λ m. c.self.id < m.id → alive m ≡ false) c.members

any_alive-keep :
    (alive : ServerAddress → Bool) (id : ℕ) (list : List ServerAddress)
    → All (λ m. id < m.id → alive m ≡ false) list
    → any_alive alive (keep (λ m. ltb id m.id) list) ≡ false
any_alive-keep alive id [] h = refl
any_alive-keep alive id (m ∷ list) (h, hs) = elim (Bool-cases (ltb id m.id)) [
  | inl e ↦ rw (e, h (ltb→lt id m.id e)) (any_alive-keep alive id list hs)
  | inr e ↦ rw e (any_alive-keep alive id list hs)
]

keep-any_alive :
    (alive : ServerAddress → Bool) (id : ℕ) (list : List ServerAddress)
    → any_alive alive (keep (λ m. ltb id m.id) list) ≡ false
    → All (λ m. id < m.id → alive m ≡ false) list
keep-any_alive alive id [] h = tt
keep-any_alive alive id (m ∷ list) h = elim (Bool-cases (ltb id m.id)) [
  | inl e ↦ elim (Bool-cases (alive m)) [
    | inl a ↦ cc (rw (e, a) at h)
    | inr a ↦ (λ _. a, keep-any_alive alive id list (rw (e, a) at h))
  ]
  | inr e ↦ (λ lt. cc (lt→ltb id m.id lt), keep-any_alive alive id list (rw e at h))
]

round-unrivalled :
    (alive : ServerAddress → Bool) (c : Cluster)
    → is_primary c.role ≡ false
    → any_alive alive (higher_members c) ≡ false
    → is_primary (election_round alive c).role ≡ true
unfolding election_round take_over begin_election is_primary
round-unrivalled alive c b e = rw (b, e) refl

round-rivalled :
    (alive : ServerAddress → Bool) (c : Cluster)
    → is_primary c.role ≡ false
    → any_alive alive (higher_members c) ≡ true
    → is_primary (election_round alive c).role ≡ false
unfolding election_round begin_election
round-rivalled alive c b e = rw (b, e) b

-- A round that a server starts as no primary makes it the primary if and only if no member with a
-- higher id answers.
pub election_round_iff :
    (alive : ServerAddress → Bool) (c : Cluster)
    → is_primary c.role ≡ false
    → ((is_primary (election_round alive c).role ≡ true) ↔ Unrivalled alive c)
unfolding higher_members
election_round_iff alive c b = elim (Bool-cases (any_alive alive (higher_members c))) [
  | inl e ↦
      (λ p. cc (round-rivalled alive c b e), λ u. cc (any_alive-keep alive c.self.id c.members u))
  | inr e ↦ (λ _. keep-any_alive alive c.self.id c.members e, λ _. round-unrivalled alive c b e)
]

-- A server is among the members.
abbrev pub Lists : ServerAddress → List ServerAddress → Type 0
Lists s [] = ⊥
Lists s (m ∷ list) = (s ≡ m) ⊎ Lists s list

All-at :
    (alive : ServerAddress → Bool) (id : ℕ) (s : ServerAddress) (list : List ServerAddress)
    → Lists s list
    → All (λ m. id < m.id → alive m ≡ false) list
    → id < s.id
    → alive s ≡ false
All-at alive id s [] l h lt = elim l [ ]
All-at alive id s (m ∷ list) (inl e) h lt = rw e (h.0 (rw e at lt))
All-at alive id s (m ∷ list) (inr l) h lt = All-at alive id s list l h.1 lt

-- While a member with a higher id answers, a round does not make the server the primary.
election_round-outranked :
    (alive : ServerAddress → Bool) (c : Cluster) (rival : ServerAddress)
    → is_primary c.role ≡ false
    → Lists rival c.members
    → c.self.id < rival.id
    → alive rival ≡ true
    → is_primary (election_round alive c).role ≡ false
election_round-outranked alive c rival b l lt a =
    elim (Bool-cases (is_primary (election_round alive c).role)) [
      | inl p ↦
          cc (All-at alive c.self.id rival c.members l ((election_round_iff alive c b).0 p) lt)
      | inr n ↦ n
    ]

-- Two servers that are not primaries, have different ids, are members in each other's lists and
-- answer each other do not both become the primary by their rounds.
pub election_round_unique :
    (alive alive' : ServerAddress → Bool) (c c' : Cluster)
    → is_primary c.role ≡ false
    → is_primary c'.role ≡ false
    → c.self.id ≢ c'.self.id
    → Lists c'.self c.members
    → Lists c.self c'.members
    → alive c'.self ≡ true
    → alive' c.self ≡ true
    → (is_primary (election_round alive c).role ≡ false)
      ⊎ (is_primary (election_round alive' c').role ≡ false)
election_round_unique alive alive' c c' b b' ne l l' a a' =
    elim (Bool-cases (ltb c.self.id c'.self.id)) [
      | inl lt ↦
          inl (election_round-outranked alive c c'.self b l (ltb→lt c.self.id c'.self.id lt) a)
      | inr ge ↦ inr (election_round-outranked alive' c' c.self b' l' (ground arith) a')
    ]

-- A backup that knows its primary, whose id is no lower than its own.
abbrev pub Follows : Cluster → Type 0
Follows c =
    (is_primary c.role ≡ false) × (c.primary_known ≡ true) × (ltb c.primary.id c.self.id ≡ false)

-- The outcome of an election: this server leads, or it follows a leader.
abbrev pub Settled : Cluster → Type 0
Settled c = (is_primary c.role ≡ true) ⊎ Follows c

-- The flag is set only by a leader that this server follows.
abbrev Seen : Cluster → Type 0
Seen c = c.coordinator_seen ≡ true → Follows c
