-- ===== src/Server/Cluster/Links/Dropped.antt =====
-- What dropping links leaves of the links of a primary.
use sis_op.Base.{
  ℕ, zero, suc, ◌≤◌, ◌<◌, ◌≡◌, ◌≢◌, ◌⊎◌, subst, sym, refl, ◌∙◌, Bool, true, false, none, some, List,
  [], ◌∷◌, length, All, arith, Bool-cases, Option-cases, inl, inr,
}
use sis_op.Base.Keys.{nat_key, same, same_self, eq_of_same}
use sis_op.Base.Dict.{lookup}
use sis_op.Server.Cluster.{Cluster, Link}
use sis_op.Server.Cluster.Links.{
  failing, cut_link, drop_links, replicate, All-failing, failing-heard, none-failing, length-erase,
  cut_link-links, cut_link-lookup, no_links, lookup-failing,
}

module _ (told : Cluster → ℕ → Bool) where
  drop_links-nil : (fuel : ℕ) (c : Cluster) → drop_links fuel told [] c ≡ c
  unfolding drop_links
  drop_links-nil zero c = refl
  drop_links-nil (suc fuel) c = refl

  drop_links-zero : (id : ℕ) (ids : List ℕ) (c : Cluster) → drop_links zero told (id ∷ ids) c ≡ c
  unfolding drop_links
  drop_links-zero id ids c = refl

  drop_links-missing :
      (fuel id : ℕ) (ids : List ℕ) (c : Cluster)
      → lookup id c.links ≡ none
      → drop_links (suc fuel) told (id ∷ ids) c ≡ drop_links (suc fuel) told ids c
  unfolding drop_links
  drop_links-missing fuel id ids c e = rw (e, drop_links) refl

  -- The state after a link is cut and the others are told.
  abbrev told_of : ℕ → ℕ → Cluster → Cluster
  told_of fuel id c =
      drop_links fuel told (failing (told (cut_link id c)) (cut_link id c).links) (cut_link id c)

  drop_links-some :
      (fuel id : ℕ) (ids : List ℕ) (c : Cluster) (link : Link)
      → lookup id c.links ≡ some link
      → drop_links (suc fuel) told (id ∷ ids) c ≡ drop_links (suc fuel) told ids (told_of fuel id c)
  unfolding drop_links
  drop_links-some fuel id ids c link e = rw (e, drop_links) refl

  -- Every linked backup answered the last Membership.
  abbrev pub AllTold : Cluster → Type 0
  AllTold c = failing (told c) c.links ≡ []

  -- What dropping these links leaves: none of them, no new one, and the others all told.
  record Dropped (ids : List ℕ) (c r : Cluster) : Type 0 where
    outcome : (r ≡ c) ⊎ AllTold r
    gone : All (λ id. lookup id r.links ≡ none) ids
    fewer : (j : ℕ) → lookup j c.links ≡ none → lookup j r.links ≡ none
    shorter : length r.links ≤ length c.links

  drop_links-Dropped :
      (fuel : ℕ) (ids : List ℕ) (c : Cluster)
      → length c.links ≤ fuel
      → Dropped ids c (drop_links fuel told ids c)
  drop_links-Dropped fuel [] c h =
      rw (drop_links-nil fuel c)
        (record { outcome = inl refl; gone = tt; fewer = λ j e. e; shorter = omega arith })
  drop_links-Dropped zero (id ∷ ids) c h = rw (drop_links-zero id ids c) (record {
    outcome = inl refl;
    gone = no_links c.links (id ∷ ids) h;
    fewer = λ j e. e;
    shorter = omega arith;
  })
  drop_links-Dropped (suc fuel) (id ∷ ids) c h = elim (Option-cases (lookup id c.links)) [
    | inl missing ↦
        let rest = drop_links-Dropped (suc fuel) ids c h in
        rw (drop_links-missing fuel id ids c missing) (record {
          outcome = rest.outcome;
          gone = (rest.fewer id missing, rest.gone);
          fewer = rest.fewer;
          shorter = rest.shorter;
        })
    | inr (link, there) ↦
        let less : length (cut_link id c).links < length c.links =
          rw (cut_link-links id c) (length-erase id c.links link there) in
        let inner =
          drop_links-Dropped fuel (failing (told (cut_link id c)) (cut_link id c).links)
            (cut_link id c) (omega (arith, less, h)) in
        let rest =
          drop_links-Dropped (suc fuel) ids (told_of fuel id c)
            (omega (arith, inner.shorter, less, h)) in
        let cut_fewer : (j : ℕ) → lookup j c.links ≡ none → lookup j (cut_link id c).links ≡ none =
          λ j e. cut_link-lookup id j c ∙ ground (arith, e) in
        rw (drop_links-some fuel id ids c link there) (record {
          outcome = inr (all_told fuel id c inner rest.outcome);
          gone = (
            rest.fewer id (inner.fewer id (cut_link-lookup id id c ∙ rw (same_self id) refl)),
            rest.gone,
          );
          fewer = λ j e. rest.fewer j (inner.fewer j (cut_fewer j e));
          shorter = omega (arith, rest.shorter, inner.shorter, less);
        })
  ]
    where
      told_now :
          (fuel id : ℕ) (c : Cluster)
          → Dropped
              (failing (told (cut_link id c)) (cut_link id c).links)
              (cut_link id c)
              (told_of fuel id c)
          → AllTold (told_of fuel id c)
      told_now fuel id c inner = elim inner.outcome [
        | inr all ↦ all
        | inl same_state ↦ subst AllTold (sym same_state) (
            none-failing (told (cut_link id c)) (cut_link id c).links _ refl (
              subst
                (λ r.
                  All (λ i. lookup i r.links ≡ none)
                    (failing (told (cut_link id c)) (cut_link id c).links))
                same_state inner.gone))
      ]

      all_told :
          (fuel id : ℕ) (c : Cluster) {r : Cluster}
          → Dropped
              (failing (told (cut_link id c)) (cut_link id c).links)
              (cut_link id c)
              (told_of fuel id c)
          → (r ≡ told_of fuel id c) ⊎ AllTold r
          → AllTold r
      all_told fuel id c inner (inr all) = all
      all_told fuel id c inner (inl same_state) =
          subst AllTold (sym same_state) (told_now fuel id c inner)

  -- A backup that answers whatever it is told stays linked.
  drop_links-keeps :
      (fuel : ℕ) (ids : List ℕ) (c : Cluster) (j : ℕ)
      → All (λ id. id ≢ j) ids
      → ((c' : Cluster) → told c' j ≡ true)
      → lookup j (drop_links fuel told ids c).links ≡ lookup j c.links
  drop_links-keeps fuel [] c j other heard = rw (drop_links-nil fuel c) refl
  drop_links-keeps zero (id ∷ ids) c j other heard = rw (drop_links-zero id ids c) refl
  drop_links-keeps (suc fuel) (id ∷ ids) c j other heard = elim (Option-cases (lookup id c.links)) [
    | inl missing ↦
        rw (drop_links-missing fuel id ids c missing)
          (drop_links-keeps (suc fuel) ids c j other.1 heard)
    | inr (link, there) ↦ rw (drop_links-some fuel id ids c link there) (
        drop_links-keeps (suc fuel) ids (told_of fuel id c) j other.1 heard
        ∙ drop_links-keeps fuel (failing (told (cut_link id c)) (cut_link id c).links)
            (cut_link id c) j
            (failing-heard (told (cut_link id c)) j (cut_link id c).links (heard _)) heard
        ∙ cut_link-lookup id j c
        ∙ rw (differ id j other.0) refl)
  ]
    where
      differ : (a b : ℕ) → a ≢ b → same a b ≡ false
      differ a b ne = elim (Bool-cases (same a b)) [
        | inl e ↦ absurd (ne (eq_of_same a b e))
        | inr n ↦ n
      ]

-- After a replication, whatever the backups answer to the change and to each new list of members: no backup that
-- failed the change is linked; unless nothing changed at all, no backup that failed the Membership of the members
-- that are left is linked either; and one that answers everything is linked as before.
pub replicate-failing :
    (change : ℕ → Bool) (told : Cluster → ℕ → Bool) (c : Cluster)
    → let r = replicate change told c in
      ((j : ℕ) → change j ≡ false → lookup j r.links ≡ none)
      × ((r ≡ c) ⊎ ((j : ℕ) → told r j ≡ false → lookup j r.links ≡ none))
      × ((j : ℕ)
          → change j ≡ true
          → ((c' : Cluster) → told c' j ≡ true)
          → lookup j r.links ≡ lookup j c.links)
unfolding replicate
replicate-failing change told c =
    let dropped =
      drop_links-Dropped told (length c.links) (failing change c.links) c (omega arith) in
    (
      (λ j silent. elim (Option-cases (lookup j c.links)) [
        | inl missing ↦ dropped.fewer j missing
        | inr (link, there) ↦ All-failing _ change j c.links link there silent dropped.gone
      ]),
      elim dropped.outcome [
        | inl unchanged ↦ inl unchanged
        | inr all ↦ inr (λ j silent. lookup-failing _ j _ all silent)
      ],
      λ j heard always_heard.
          drop_links-keeps told (length c.links) (failing change c.links) c j
            (failing-heard change j c.links heard) always_heard,
    )
