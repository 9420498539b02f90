-- ===== src/Tests/Members.antt =====
-- Joins, elections and sessions.
use sis_op.Base.{
  ◌==◌, ℕ, ◌≤◌, ◌≡◌, ◌⊎◌, refl, Bool, true, false, none, some, List, [], ◌∷◌, arith, inl, inr,
}
use sis_op.Base.Keys.{Bytes, bytes_key, bytes_cmp}
use sis_op.Protocol.Names.{text}
use sis_op.Protocol.Address.{ServerAddress}
use sis_op.Server.Sessions.{count, max_sessions_per_user}
use sis_op.Server.Sessions.Limit.{Call, opens, run, run-le}
use sis_op.Server.Cluster.{
  Role, Cluster, is_primary, start_as_primary, known_id, assign_id, no_more_ids, join_ok,
  handle_join, election_round,
}
use sis_op.Base.Keys.{nat_key}
use sis_op.Base.Dict.{lookup}
use sis_op.Server.Cluster.Links.{replicate}
use sis_op.Server.Cluster.Links.Dropped.{replicate-failing}
use sis_op.Server.Cluster.Ids.{
  IsOrdered, AllAbove, start-IsOrdered, handle_join-IsOrdered, handle_join-new, assign_id-race,
}
use sis_op.Server.Cluster.Election.{election_round_unique}

abbrev server : ℕ → ServerAddress
server id = record { id = id; host = text "10.0.0.9"; port = 4000 }

abbrev fresh : Cluster
fresh = record {
  self = server 0;
  role = Role.joining;
  primary = server 0;
  primary_known = false;
  members = [];
  lowest_id = 0;
  links = [];
  primary_link = none;
  building_manifest = false;
  coordinator_seen = false;
}

abbrev leader : Cluster
leader = start_as_primary fresh

abbrev host : Bytes
host = text "10.0.0.1"

abbrev other_host : Bytes
other_host = text "10.0.0.2"

unknown : known_id 0 host 4001 leader.members ≡ 0
unfolding start_as_primary known_id bytes_cmp
unknown = refl

other_unknown : known_id 0 other_host 4001 leader.members ≡ 0
unfolding start_as_primary known_id bytes_cmp
other_unknown = refl

handle_join-IsOrdered_example : IsOrdered (handle_join host 4001 leader).0
handle_join-IsOrdered_example = handle_join-IsOrdered host 4001 leader (start-IsOrdered fresh)

handle_join-new_example :
    ((handle_join host 4001 leader).1 ≡ no_more_ids)
    ⊎ ((id : ℕ) × ((handle_join host 4001 leader).1
          ≡ join_ok (record { id = id; host = host; port = 4001 }))
        × (1 ≤ id)
        × AllAbove id leader.members)
handle_join-new_example = handle_join-new host 4001 leader (start-IsOrdered fresh) unknown

assign_id-race_example :
    (assign_id other_host 4001 (assign_id host 4001 leader).0).1 ≡ (assign_id host 4001 leader).1
assign_id-race_example =
    assign_id-race host other_host 4001 4001 leader (start-IsOrdered fresh) unknown other_unknown

-- A backup with this id, when the primary has died.
abbrev backup : ℕ → Cluster
backup id = record fresh {
  self = server id;
  role = Role.backup;
  primary = server 1000;
  members = server 1000 ∷ server 999 ∷ server 998 ∷ [];
}

abbrev all_alive : ServerAddress → Bool
all_alive s = true

abbrev all_dead : ServerAddress → Bool
all_dead s = false

backup-role : (id : ℕ) → is_primary (backup id).role ≡ false
unfolding is_primary
backup-role id = refl

election_round_unique_example :
    (is_primary (election_round all_alive (backup 999)).role ≡ false)
    ⊎ (is_primary (election_round all_alive (backup 998)).role ≡ false)
election_round_unique_example =
    election_round_unique all_alive all_alive (backup 999) (backup 998) (backup-role 999)
      (backup-role 998) (λ e. absurd (omega (arith, e))) (inr (inr (inl refl))) (inr (inl refl))
      refl refl

-- Three logins of one user.
abbrev logins : List Call
logins =
    opens (text "ana") 4 (some (1 ∷ []))
    ∷ opens (text "ana") 5 (some (2 ∷ []))
    ∷ opens (text "ana") 6 (some (3 ∷ []))
    ∷ []

run-le_example : count (text "ana") (run logins []) ≤ max_sessions_per_user
run-le_example = run-le logins (text "ana")

-- A primary with two backups.
abbrev linked : Cluster
linked = record fresh {
  links =
      (999, record { member = server 999; conn = 4 })
      ∷ (998, record { member = server 998; conn = 5 })
      ∷ [];
}

abbrev only_998 : ℕ → Bool
only_998 id = id == 998

-- Every backup answers each list of members.
abbrev all_told : Cluster → ℕ → Bool
all_told c id = true

replicate-failing_example :
    let r = replicate only_998 all_told linked in
    ((j : ℕ) → only_998 j ≡ false → lookup j r.links ≡ none)
    × ((r ≡ linked) ⊎ ((j : ℕ) → all_told r j ≡ false → lookup j r.links ≡ none))
    × ((j : ℕ)
        → only_998 j ≡ true
        → ((c' : Cluster) → all_told c' j ≡ true)
        → lookup j r.links ≡ lookup j linked.links)
replicate-failing_example = replicate-failing only_998 all_told linked
