-- ===== src/Server/Cluster/Links.antt =====
-- Links that fail: replicate_*, drop_link and broadcast_membership of server/cluster.cpp. A replication drops
-- the backups that did not answer; each drop tells the others the new list of members, and drops those that
-- do not answer that. Links are known by the member's id.
pub mod Dropped
use sis_op.Base.{
  ℕ, zero, suc, ◌≤◌, ◌<◌, ◌≡◌, ◌≢◌, ◌⊎◌, subst, sym, refl, ◌∙◌, ap, Bool, true, false, none, some,
  List, [], ◌∷◌, length, All, arith, if◌then◌else◌, Bool-cases, Option-cases, inl, inr,
}
use sis_op.Base.Keys.{nat_key, same, same_self, eq_of_same}
use sis_op.Base.Dict.{Dict, lookup, erase, lookup-erase}
use sis_op.Server.Cluster.{Cluster, Link, remove_member}

-- The links that do not answer.
unfoldable pub failing : (ℕ → Bool) → Dict ℕ Link → List ℕ
failing answers [] = []
failing answers ((id, link) ∷ links) =
    if answers id then failing answers links else id ∷ failing answers links

unfoldable pub cut_link : ℕ → Cluster → Cluster
cut_link id c = remove_member id (record c { links = erase id c.links })

-- The loop over the failed links, each with the broadcast that drop_link ends with. `told` tells which
-- backups answer the Membership that is sent in a state. Each broadcast within has a link less.
unfoldable pub drop_links : ℕ → (Cluster → ℕ → Bool) → List ℕ → Cluster → Cluster
drop_links fuel told [] c = c
drop_links zero told (id ∷ ids) c = c
drop_links (suc fuel) told (id ∷ ids) c = elim (lookup id c.links) [
  | none ↦ drop_links (suc fuel) told ids c
  | some link ↦
      let cut = cut_link id c in
      drop_links (suc fuel) told ids (drop_links fuel told (failing (told cut) cut.links) cut)
]

-- replicate_put, replicate_delete and replicate_account: `change` tells which backups answer the change.
unfoldable pub replicate : (ℕ → Bool) → (Cluster → ℕ → Bool) → Cluster → Cluster
replicate change told c = drop_links (length c.links) told (failing change c.links) c

pub lookup-failing :
    (answers : ℕ → Bool) (id : ℕ) (links : Dict ℕ Link)
    → failing answers links ≡ []
    → answers id ≡ false
    → lookup id links ≡ none
unfolding failing lookup
lookup-failing answers id [] h f = refl
lookup-failing answers id ((j, link) ∷ links) h f = elim (Bool-cases (answers j)) [
  | inr e ↦ cc (rw e at h)
  | inl e ↦ elim (Bool-cases (same j id)) [
    | inl eq ↦ cc (ap answers (eq_of_same j id eq))
    | inr ne ↦ rw ne (lookup-failing answers id links (rw e at h) f)
  ]
]

-- A key that fails is a key of a link.
lookup-key :
    (answers : ℕ → Bool) (id : ℕ) (links : Dict ℕ Link)
    → lookup id links ≡ none
    → All (λ j. j ≢ id) (failing answers links)
unfolding lookup failing
lookup-key answers id [] h = tt
lookup-key answers id ((j, link) ∷ links) h = elim (Bool-cases (same j id)) [
  | inl eq ↦ cc (rw eq at h)
  | inr ne ↦ elim (Bool-cases (answers j)) [
    | inl e ↦ rw e (lookup-key answers id links (rw ne at h))
    | inr e ↦
        rw e ((λ eq. cc (rw (eq, same_self id) at ne)), lookup-key answers id links (rw ne at h))
  ]
]

-- What holds of the links that do not answer holds of each one.
pub All-failing :
    (P : ℕ → Type 0) (answers : ℕ → Bool) (id : ℕ) (links : Dict ℕ Link) (link : Link)
    → lookup id links ≡ some link
    → answers id ≡ false
    → All P (failing answers links)
    → P id
unfolding failing lookup
All-failing P answers id [] link h silent all = cc h
All-failing P answers id ((j, l) ∷ links) link h silent all = elim (Bool-cases (same j id)) [
  | inl eq ↦ let e = eq_of_same j id eq in subst P e (rw (ap answers e ∙ silent) at all).0
  | inr ne ↦ elim (Bool-cases (answers j)) [
    | inl a ↦ All-failing P answers id links link (rw ne at h) silent (rw a at all)
    | inr a ↦ All-failing P answers id links link (rw ne at h) silent (rw a at all).1
  ]
]

pub failing-heard :
    (answers : ℕ → Bool) (id : ℕ) (links : Dict ℕ Link)
    → answers id ≡ true
    → All (λ j. j ≢ id) (failing answers links)
unfolding failing
failing-heard answers id [] heard = tt
failing-heard answers id ((j, link) ∷ links) heard = elim (Bool-cases (answers j)) [
  | inl a ↦ rw a (failing-heard answers id links heard)
  | inr a ↦ rw a ((λ e. cc (ap answers e)), failing-heard answers id links heard)
]

-- Where no failing link is there, none fails.
pub none-failing :
    (answers : ℕ → Bool) (links : Dict ℕ Link) (ids : List ℕ)
    → failing answers links ≡ ids
    → All (λ id. lookup id links ≡ none) ids
    → ids ≡ []
none-failing answers links [] h all = refl
none-failing answers links (id ∷ ids) h all =
    absurd ((rw h at (lookup-key answers id links all.0)).0 refl)

length-erase-le : (id : ℕ) (links : Dict ℕ Link) → length (erase id links) ≤ length links
unfolding erase
length-erase-le id [] = omega arith
length-erase-le id ((j, l) ∷ links) = ground (arith, length-erase-le id links)

pub length-erase :
    (id : ℕ) (links : Dict ℕ Link) (link : Link)
    → lookup id links ≡ some link
    → length (erase id links) < length links
unfolding erase lookup
length-erase id [] link h = cc h
length-erase id ((j, l) ∷ links) link h = elim (Bool-cases (same j id)) [
  | inl eq ↦ rw eq (omega (arith, length-erase-le id links))
  | inr ne ↦ rw ne (omega (arith, length-erase id links link (rw ne at h)))
]

pub cut_link-links : (id : ℕ) (c : Cluster) → (cut_link id c).links ≡ erase id c.links
unfolding cut_link remove_member
cut_link-links id c = refl

pub cut_link-lookup :
    (id j : ℕ) (c : Cluster)
    → lookup j (cut_link id c).links ≡ (if same id j then none else lookup j c.links)
cut_link-lookup id j c = ap (lookup j) (cut_link-links id c) ∙ lookup-erase id j c.links

no_link : (links : Dict ℕ Link) (id : ℕ) → length links ≤ 0 → lookup id links ≡ none
unfolding lookup
no_link [] id h = refl
no_link (l ∷ links) id h = absurd (omega (arith, h))

pub no_links :
    (links : Dict ℕ Link) (ids : List ℕ) → length links ≤ 0 → All (λ id. lookup id links ≡ none) ids
no_links links [] h = tt
no_links links (id ∷ ids) h = (no_link links id h, no_links links ids h)
