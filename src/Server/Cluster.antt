-- ===== src/Server/Cluster.antt =====
-- server/cluster.hpp and server/cluster.cpp: the membership state that mutex_ guards, and what each
-- critical section does to it. A connection is known by a number; time is left out.
pub mod Ids
pub mod Election
pub mod Links
use sis_op.Base.{
  ℕ, ◌+◌, ◌-◌, ◌%◌, ◌^◌, min, Bool, true, false, not, ◌&&◌, Option, none, some, List, [], ◌∷◌, ltb,
  ◌==◌, if◌then◌else◌, keep,
}
use sis_op.Base.Keys.{Bytes, nat_key}
use sis_op.Base.Dict.{Dict, lookup, insert, erase}
use sis_op.Files.Names.{◌is◌}
use sis_op.Protocol.Address.{ServerAddress}

pub data Role : Type 0 where
  joining backup primary : Role

-- One per backup: the member and its connection.
pub record Link : Type 0 where
  pub member : ServerAddress
  pub conn : ℕ

pub record Cluster : Type 0 where
  pub self : ServerAddress
  pub role : Role
  pub primary : ServerAddress
  pub primary_known : Bool
  pub members : List ServerAddress
  pub lowest_id : ℕ
  pub links : Dict ℕ Link
  pub primary_link : Option ℕ
  pub building_manifest : Bool
  pub coordinator_seen : Bool

abbrev pub first_id : ℕ
first_id = 1000

unfoldable pub is_primary : Role → Bool
is_primary Role.primary = true
is_primary _ = false

unfoldable pub upsert : List ServerAddress → ServerAddress → List ServerAddress
upsert [] server = server ∷ []
upsert (existing ∷ list) server =
    if existing.id == server.id then server ∷ list else existing ∷ upsert list server

unfoldable pub start_as_primary : Cluster → Cluster
start_as_primary c =
    let me = record c.self { id = first_id } in
    record c {
      self = me;
      lowest_id = first_id;
      role = Role.primary;
      primary = me;
      primary_known = true;
      members = me ∷ [];
    }

-- The critical section of `join`, when the primary at this address has answered JoinOk.
unfoldable pub accept_join : ℕ → ℕ → Bytes → ℕ → Cluster → Cluster
accept_join id primary_id host port c =
    let me = record c.self { id = id } in
    let leader : ServerAddress = record { id = primary_id; host = host; port = port } in
    record c {
      self = me;
      role = Role.backup;
      primary = leader;
      primary_known = true;
      members = leader ∷ me ∷ [];
    }

unfoldable pub primary_address : Cluster → Option ServerAddress
primary_address c = if c.primary_known then some c.primary else none

-- std::min over the ids of a list.
unfoldable pub min_ids : ℕ → List ServerAddress → ℕ
min_ids lowest [] = lowest
min_ids lowest (m ∷ list) = min_ids (min lowest m.id) list

unfoldable pub add_member : ServerAddress → Cluster → Cluster
add_member member c = record c {
  members = upsert c.members member;
  lowest_id = min (if c.lowest_id == 0 then member.id else c.lowest_id) member.id;
}

unfoldable pub drop_id : ℕ → List ServerAddress → List ServerAddress
drop_id id = keep (λ m. not (m.id == id))

unfoldable pub remove_member : ℕ → Cluster → Cluster
remove_member id c = record c { members = drop_id id c.members }

-- The id of the last member at this address; 0 if there is none.
unfoldable pub known_id : ℕ → Bytes → ℕ → List ServerAddress → ℕ
known_id id host port [] = id
known_id id host port (m ∷ list) =
    known_id (if m.host is host && m.port == port then m.id else id) host port list

-- A 32-bit decrement.
abbrev pub pred32 : ℕ → ℕ
pred32 n = (n + 2 ^ 32 - 1) % 2 ^ 32

-- The critical section of handle_join on the primary: the id for a server at this address.
unfoldable pub assign_id : Bytes → ℕ → Cluster → Cluster × ℕ
assign_id host port c =
    let known = known_id 0 host port c.members in
    let lowest = min_ids c.lowest_id c.members in
    if known == 0 then (record c { lowest_id = lowest }, pred32 lowest) else (c, known)

-- What handle_join answers, and the state that it then works on.
pub data JoinReply : Type 0 where
  redirect : Option ServerAddress → JoinReply
  no_more_ids : JoinReply
  join_ok : ServerAddress → JoinReply

unfoldable pub answer_join : Bytes → ℕ → Cluster × ℕ → Cluster × JoinReply
answer_join host port (c, id) =
    let member : ServerAddress = record { id = id; host = host; port = port } in
    if id == 0 then (c, no_more_ids) else (add_member member c, join_ok member)

-- handle_join up to the reply, with nothing between its two critical sections.
unfoldable pub handle_join : Bytes → ℕ → Cluster → Cluster × JoinReply
handle_join host port c =
    if is_primary c.role
    then answer_join host port (assign_id host port c)
    else (c, redirect (primary_address c))

-- The links that a server drops when another has taken over.
abbrev stepped_down : Cluster → Dict ℕ Link
stepped_down c = if is_primary c.role then [] else c.links

-- The first critical section of handle_replica_attach.
unfoldable pub adopt : ServerAddress → List ServerAddress → ℕ → Cluster → Cluster
adopt leader servers conn c = record c {
  links = stepped_down c;
  primary_link = some conn;
  role = Role.backup;
  primary = leader;
  primary_known = true;
  coordinator_seen = true;
  members = upsert servers c.self;
  building_manifest = true;
}

-- A Membership message on the replica link.
unfoldable pub set_members : List ServerAddress → Cluster → Cluster
set_members servers c = record c { members = upsert servers c.self }

-- handle_coordinator: a lower leader is not accepted (the server then starts an election).
unfoldable pub follow : ServerAddress → Cluster → Cluster
follow leader c = if ltb leader.id c.self.id then c else record c {
  links = stepped_down c;
  role = Role.backup;
  primary = leader;
  primary_known = true;
  coordinator_seen = true;
  members = upsert c.members leader;
}

-- The first critical section of a round of run_election: whom to ask; nothing on a primary.
unfoldable pub higher_members : Cluster → List ServerAddress
higher_members c = keep (λ m. ltb c.self.id m.id) c.members

unfoldable pub begin_election : Cluster → Cluster
begin_election c = record c { primary_known = false; coordinator_seen = false }

abbrev pub any_alive : (ServerAddress → Bool) → List ServerAddress → Bool
any_alive alive [] = false
any_alive alive (m ∷ list) = if alive m then true else any_alive alive list

-- The critical section of become_primary.
unfoldable pub take_over : Cluster → Cluster
take_over c =
    let others = if c.primary.id == c.self.id then c.members else drop_id c.primary.id c.members in
    record c {
      role = Role.primary;
      primary = c.self;
      primary_known = true;
      members = others;
      lowest_id = min_ids c.self.id others;
      primary_link = none;
    }

-- A round of run_election: `alive` tells which servers accept the connection and answer Ok.
unfoldable pub election_round : (ServerAddress → Bool) → Cluster → Cluster
election_round alive c =
    if is_primary c.role
    then c
    else if any_alive alive (higher_members c)
    then begin_election c
    else take_over (begin_election c)

-- What happens around a round: which servers answer, and the Coordinator messages handled while the
-- server waits.
pub record Round : Type 0 where
  pub alive : ServerAddress → Bool
  pub announced : List ServerAddress

abbrev pub follow_all : List ServerAddress → Cluster → Cluster
follow_all [] c = c
follow_all (leader ∷ list) c = follow_all list (follow leader c)

-- run_election, until the list ends and the server stops.
unfoldable pub run_election : List Round → Cluster → Cluster
run_election [] c = c
run_election (round ∷ rounds) c =
    let started = election_round round.alive c in
    let waited = follow_all round.announced started in
    let rest = run_election rounds waited in
    if is_primary started.role then started else if waited.coordinator_seen then waited else rest
