-- ===== src/Base/Dict.antt =====
-- std::map as a list of entries in the order of its keys. Proofs elsewhere go by the laws.
use mathlib.Core.Option
use sis_op.Base.{◌≡◌, refl, Option, none, some, List, [], ◌∷◌, map, arith, Ordering, if◌then◌else◌}
use sis_op.Base.Keys.{Key, same}

abbrev pub Dict {ℓ κ} : Type ℓ → Type κ → Type (ℓ ⊔ κ)
Dict K V = List (K × V)

module _ {ℓ κ} {K : Type ℓ} {V : Type κ} ⦃o : Key K⦄ where
  -- find
  unfoldable pub lookup : K → Dict K V → Option V
  lookup k [] = none
  lookup k ((j, v) ∷ d) = if same j k then some v else lookup k d

  -- operator[] = v
  unfoldable pub insert : K → V → Dict K V → Dict K V
  insert k v [] = (k, v) ∷ []
  insert k v ((j, w) ∷ d) =
      let rest = insert k v d in
      elim (o.cmp k j) [
        | Ordering.lt ↦ (k, v) ∷ (j, w) ∷ d
        | Ordering.eq ↦ (k, v) ∷ d
        | Ordering.gt ↦ (j, w) ∷ rest
      ]

  unfoldable pub erase : K → Dict K V → Dict K V
  erase k [] = []
  erase k ((j, w) ∷ d) = if same j k then erase k d else (j, w) ∷ erase k d

  -- A change of the entry that `find` returned, in place.
  unfoldable pub modify : K → (V → V) → Dict K V → Dict K V
  modify k f [] = []
  modify k f ((j, w) ∷ d) = if same j k then (j, f w) ∷ d else (j, w) ∷ modify k f d

  -- The keys, in order.
  abbrev pub keys : Dict K V → List K
  keys = map (λ e. e.0)

  pub lookup-insert :
      (k j : K) (v : V) (d : Dict K V)
      → lookup j (insert k v d) ≡ (if same k j then some v else lookup j d)
  unfolding lookup insert
  lookup-insert k j v [] = refl
  lookup-insert k j v ((i, w) ∷ d) =
      ground (arith, o.eq_of_cmp k i, o.eq_of_cmp i j, o.eq_of_cmp k j, lookup-insert k j v d)

  pub lookup-erase :
      (k j : K) (d : Dict K V) → lookup j (erase k d) ≡ (if same k j then none else lookup j d)
  unfolding lookup erase
  lookup-erase k j [] = ground arith
  lookup-erase k j ((i, w) ∷ d) =
      ground
        (arith, o.eq_of_cmp i k, o.eq_of_cmp i j, o.eq_of_cmp k j, o.cmp_self j, lookup-erase k j d)

  pub lookup-modify :
      (k j : K) (f : V → V) (d : Dict K V)
      → lookup j (modify k f d) ≡ (if same k j then Option.map f (lookup j d) else lookup j d)
  unfolding lookup modify
  lookup-modify k j f [] = ground arith
  lookup-modify k j f ((i, w) ∷ d) = ground (
    arith,
    o.eq_of_cmp i k,
    o.eq_of_cmp i j,
    o.eq_of_cmp k j,
    o.cmp_self j,
    lookup-modify k j f d,
  )
