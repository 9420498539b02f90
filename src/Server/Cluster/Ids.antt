-- ===== src/Server/Cluster/Ids.antt =====
-- The primary hands out ids downwards, so that it keeps the highest one.
use sis_op.Base.{
  ℕ, ◌+◌, ◌^◌, ◌≤◌, ◌<◌, ◌≡◌, ◌⊎◌, refl, min, true, false, ◌&&◌, List, [], ◌∷◌, ◌==◌, if◌then◌else◌,
  All, arith, Bool-cases, inl, inr,
}
use sis_op.Base.Keys.{Bytes}
use sis_op.Files.Names.{◌is◌}
use sis_op.Protocol.Address.{ServerAddress}
use sis_op.Server.Cluster.{
  Cluster, is_primary, upsert, start_as_primary, min_ids, add_member, remove_member, drop_id,
  known_id, pred32, assign_id, join_ok, no_more_ids, answer_join, handle_join,
}

-- Every id lies between two bounds.
abbrev pub Between : ℕ → ℕ → List ServerAddress → Type 0
Between low high = All (λ m. (low ≤ m.id) × (m.id ≤ high))

-- What the primary's state promises of the ids.
pub record IsOrdered (c : Cluster) : Type 0 where
  pub leads : is_primary c.role ≡ true
  pub positive : 1 ≤ c.lowest_id
  pub fits : c.self.id < 2 ^ 32
  pub bounds : Between c.lowest_id c.self.id c.members
  pub below_self : c.lowest_id ≤ c.self.id

Between-upsert :
    (low high : ℕ) (list : List ServerAddress) (m : ServerAddress)
    → Between low high list
    → low ≤ m.id
    → m.id ≤ high
    → Between low high (upsert list m)
unfolding upsert
Between-upsert low high [] m b l h = ((l, h), tt)
Between-upsert low high (x ∷ list) m b l h = ground (arith, Between-upsert low high list m b.1 l h)

Between-mono :
    (low low' high : ℕ) (list : List ServerAddress)
    → low' ≤ low
    → Between low high list
    → Between low' high list
Between-mono low low' high [] h b = tt
Between-mono low low' high (x ∷ list) h b =
    ((omega (arith, b.0.0), b.0.1), Between-mono low low' high list h b.1)

Between-drop_id :
    (low high id : ℕ) (list : List ServerAddress)
    → Between low high list
    → Between low high (drop_id id list)
unfolding drop_id
Between-drop_id low high id [] b = tt
Between-drop_id low high id (x ∷ list) b = ground (arith, Between-drop_id low high id list b.1)

min_ids-eq :
    (low high : ℕ) (list : List ServerAddress) → Between low high list → min_ids low list ≡ low
unfolding min_ids
min_ids-eq low high [] b = refl
min_ids-eq low high (x ∷ list) b = ground (arith, b.0.0, min_ids-eq low high list b.1)

known_id-bounds :
    (low high id : ℕ) (host : Bytes) (port : ℕ) (list : List ServerAddress)
    → Between low high list
    → (id ≡ 0) ⊎ ((low ≤ id) × (id ≤ high))
    → (known_id id host port list ≡ 0)
      ⊎ ((low ≤ known_id id host port list) × (known_id id host port list ≤ high))
unfolding known_id
known_id-bounds low high id host port [] b h = h
known_id-bounds low high id host port (x ∷ list) b h =
    known_id-bounds low high (if x.host is host && x.port == port then x.id else id) host port list
      b.1 (ground (arith, b.0))

-- A new cluster is in order.
pub start-IsOrdered : (c : Cluster) → IsOrdered (start_as_primary c)
unfolding start_as_primary is_primary
start-IsOrdered c = record {
  leads = refl;
  positive = omega arith;
  fits = omega arith;
  bounds = (omega arith, tt);
  below_self = omega arith;
}

remove-IsOrdered : (id : ℕ) (c : Cluster) → IsOrdered c → IsOrdered (remove_member id c)
unfolding remove_member
remove-IsOrdered id c o = record {
  leads = o.leads;
  positive = o.positive;
  fits = o.fits;
  bounds = Between-drop_id c.lowest_id c.self.id id c.members o.bounds;
  below_self = o.below_self;
}

same-lowest :
    (lowest id : ℕ) → 1 ≤ lowest → min (if lowest == 0 then id else lowest) id ≡ min lowest id
same-lowest lowest id h = ground arith

add_member-IsOrdered :
    (m : ServerAddress) (c : Cluster)
    → IsOrdered c
    → 1 ≤ m.id
    → m.id ≤ c.self.id
    → IsOrdered (add_member m c)
unfolding add_member
add_member-IsOrdered m c o pos high =
    let e = same-lowest c.lowest_id m.id o.positive in
    let low : min (if c.lowest_id == 0 then m.id else c.lowest_id) m.id ≤ c.lowest_id =
      rw e (omega arith) in
    let low' : min (if c.lowest_id == 0 then m.id else c.lowest_id) m.id ≤ m.id =
      rw e (omega arith) in
    record {
      leads = o.leads;
      positive = rw e (omega (arith, o.positive));
      fits = o.fits;
      bounds =
          Between-upsert _ c.self.id c.members m
            (Between-mono c.lowest_id _ c.self.id c.members low o.bounds) low' high;
      below_self = omega (arith, o.below_self, low);
    }

pred32-positive : (n : ℕ) → 1 ≤ n → n < 2 ^ 32 → pred32 n + 1 ≡ n
pred32-positive n h f = omega arith

-- On an ordered state the search for the lowest id finds the counter.
assign_id-lowest :
    (host : Bytes) (port : ℕ) (c : Cluster)
    → IsOrdered c
    → known_id 0 host port c.members ≡ 0
    → assign_id host port c ≡ (c, pred32 c.lowest_id)
unfolding assign_id
assign_id-lowest host port c o e =
    let low = min_ids-eq c.lowest_id c.self.id c.members o.bounds in rw (e, low) refl

assign_id-known :
    (host : Bytes) (port : ℕ) (c : Cluster)
    → ((known_id 0 host port c.members == 0) ≡ false)
    → assign_id host port c ≡ (c, known_id 0 host port c.members)
unfolding assign_id
assign_id-known host port c e = rw e refl

answer_join-IsOrdered :
    (host : Bytes) (port : ℕ) (c : Cluster) (id : ℕ)
    → IsOrdered c
    → id ≤ c.self.id
    → IsOrdered (answer_join host port (c, id)).0
unfolding answer_join
answer_join-IsOrdered host port c id o h = elim (Bool-cases (id == 0)) [
  | inl e ↦ rw e o
  | inr e ↦
      rw e
        (add_member-IsOrdered (record { id = id; host = host; port = port }) c o (ground arith) h)
]

known_id-le :
    (host : Bytes) (port : ℕ) (c : Cluster)
    → IsOrdered c
    → known_id 0 host port c.members ≤ c.self.id
known_id-le host port c o =
    let bounds = known_id-bounds c.lowest_id c.self.id 0 host port c.members o.bounds (inl refl) in
    omega (arith, bounds)

-- A join keeps the state of a primary ordered: every id lies between the lowest id handed out, which
-- is not zero, and the primary's own.
pub handle_join-IsOrdered :
    (host : Bytes) (port : ℕ) (c : Cluster) → IsOrdered c → IsOrdered (handle_join host port c).0
unfolding handle_join
handle_join-IsOrdered host port c o =
    rw o.leads (elim (Bool-cases (known_id 0 host port c.members == 0)) [
      | inl e ↦ rw (assign_id-lowest host port c o (ground arith)) (
          answer_join-IsOrdered host port c (pred32 c.lowest_id) o
            (omega (arith, o.positive, o.below_self, o.fits)))
      | inr e ↦ rw (assign_id-known host port c e) (
          answer_join-IsOrdered host port c (known_id 0 host port c.members) o
            (known_id-le host port c o))
    ])

-- Every member's id is above this one.
abbrev pub AllAbove : ℕ → List ServerAddress → Type 0
AllAbove id = All (λ m. id < m.id)

AllAbove-Between :
    (low high : ℕ) (list : List ServerAddress) (id : ℕ)
    → id < low
    → Between low high list
    → AllAbove id list
AllAbove-Between low high [] id h b = tt
AllAbove-Between low high (x ∷ list) id h b =
    (omega (arith, b.0.0), AllAbove-Between low high list id h b.1)

-- On an ordered state, a server at an address that is not a member's yet joins with an id that is not
-- zero and below every member's, or is told that there are no more ids.
pub handle_join-new :
    (host : Bytes) (port : ℕ) (c : Cluster)
    → IsOrdered c
    → known_id 0 host port c.members ≡ 0
    → ((handle_join host port c).1 ≡ no_more_ids)
      ⊎ ((id : ℕ) × ((handle_join host port c).1
            ≡ join_ok (record { id = id; host = host; port = port }))
          × (1 ≤ id)
          × AllAbove id c.members)
unfolding handle_join answer_join
handle_join-new host port c o unknown =
    rw (o.leads, assign_id-lowest host port c o unknown)
      (elim (Bool-cases (pred32 c.lowest_id == 0)) [
        | inl e ↦ rw e (inl refl)
        | inr e ↦ rw e (
            inr (
              pred32 c.lowest_id,
              refl,
              ground arith,
              AllAbove-Between c.lowest_id c.self.id c.members _
                  (omega (arith, o.positive, o.fits, o.below_self)) o.bounds,
            ))
      ])

-- On an ordered state, two servers at addresses that no member has get one and the same id, if both
-- ids are chosen before either server is added to the members.
pub assign_id-race :
    (host host' : Bytes) (port port' : ℕ) (c : Cluster)
    → IsOrdered c
    → known_id 0 host port c.members ≡ 0
    → known_id 0 host' port' c.members ≡ 0
    → (assign_id host' port' (assign_id host port c).0).1 ≡ (assign_id host port c).1
assign_id-race host host' port port' c o new new' =
    rw (assign_id-lowest host port c o new, assign_id-lowest host' port' c o new') refl
