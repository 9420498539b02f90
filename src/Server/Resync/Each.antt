-- ===== src/Server/Resync/Each.antt =====
-- The loop each_unless of Server/Resync, and lists of which all elements have a property.
use sis_op.Base.{
  ◌≡◌, refl, sym, subst, Bool, true, false, some, List, [], ◌∷◌, All, Bool-cases, Ordering, inl,
  inr,
}
use sis_op.Base.Keys.{Key, same, eq_of_same}
use sis_op.Base.Dict.{Dict, lookup, insert}
use sis_op.Server.Resync.{each_unless}

-- A property of the entry that is found, if it holds of all.
pub All-lookup {ℓ κ} :
    {K : Type 0} {V : Type ℓ} ⦃o : Key K⦄ (P : K → Type κ) (k : K) (d : Dict K V) (v : V)
    → lookup k d ≡ some v
    → All (λ e. P e.0) d
    → P k
unfolding lookup
All-lookup P k [] v h all = cc h
All-lookup P k ((j, w) ∷ d) v h all = elim (Bool-cases (same j k)) [
  | inl eq ↦ subst P (eq_of_same j k eq) all.0
  | inr ne ↦ All-lookup P k d v (rw ne at h) all.1
]

pub All-map {κ λ'} :
    {A : Type 0} (P : A → Type κ) (Q : A → Type λ') (l : List A)
    → ((a : A) → P a → Q a)
    → All P l
    → All Q l
All-map P Q [] f all = tt
All-map P Q (a ∷ l) f all = (f a all.0, All-map P Q l f all.1)

pub All-insert {κ} :
    {K V : Type 0} ⦃o : Key K⦄ (P : K × V → Type κ) (k : K) (v : V) (d : Dict K V)
    → P (k, v)
    → All P d
    → All P (insert k v d)
unfolding insert
All-insert ⦃o⦄ P k v [] p all = (p, tt)
All-insert ⦃o⦄ P k v ((j, w) ∷ d) p all =
    elim (o.cmp k j)
      as (λ c. All P (elim c [
        | Ordering.lt ↦ (k, v) ∷ (j, w) ∷ d
        | Ordering.eq ↦ (k, v) ∷ d
        | Ordering.gt ↦ (j, w) ∷ insert k v d
      ])) [
        | Ordering.lt ↦ (p, all)
        | Ordering.eq ↦ (p, all.1)
        | Ordering.gt ↦ (all.0, All-insert P k v d p all.1)
      ]

-- The ways through the loop.
module _ {E : Type 0} {State : Type 0} (skip : E → Bool) (send : State → E → State × Bool) where
  each_unless-nil : (s : State) → each_unless skip send [] s ≡ (s, true)
  unfolding each_unless
  each_unless-nil s = refl

  each_unless-skip :
      (e : E) (l : List E) (s : State)
      → skip e ≡ true
      → each_unless skip send (e ∷ l) s ≡ each_unless skip send l s
  unfolding each_unless
  each_unless-skip e l s skipped = rw skipped refl

  each_unless-sent :
      (e : E) (l : List E) (s : State)
      → skip e ≡ false
      → (send s e).1 ≡ true
      → each_unless skip send (e ∷ l) s ≡ each_unless skip send l (send s e).0
  unfolding each_unless
  each_unless-sent e l s not_skipped sent = rw (not_skipped, sent) refl

  each_unless-failed :
      (e : E) (l : List E) (s : State)
      → skip e ≡ false
      → (send s e).1 ≡ false
      → each_unless skip send (e ∷ l) s ≡ ((send s e).0, false)
  unfolding each_unless
  each_unless-failed e l s not_skipped failed = rw (not_skipped, failed) refl

-- The loop, where what an exchange settles stays settled.
module _ {E : Type 0} {State : Type 0} {X : Type 0} (send : State → E → State × Bool)
    (Settled : State → X → Type 0) (at : E → X) where
  abbrev pub Keeps : State → State → Type 0
  Keeps s s' = (x : X) → Settled s x → Settled s' x

  -- An exchange for this element settles it, and keeps what is settled.
  abbrev pub Settles : E → Type 0
  Settles e = (s : State) → (send s e).1 ≡ true → Settled (send s e).0 (at e) × Keeps s (send s e).0

  abbrev pub Ends : State → List E → State × Bool → Type 0
  Ends s l t = t.1 ≡ true → Keeps s t.0 × All (λ e. Settled t.0 (at e)) l

  pub each_unless-Ends :
      (skip : E → Bool) (l : List E) (s : State)
      → All (λ e. (skip e ≡ false → Settles e) × (skip e ≡ true → Settled s (at e))) l
      → Ends s l (each_unless skip send l s)
  each_unless-Ends skip [] s all =
      subst (Ends s []) (sym (each_unless-nil skip send s)) (λ done. ((λ x h. h), tt))
  each_unless-Ends skip (e ∷ l) s all = elim (Bool-cases (skip e)) [
    | inl skipped ↦
        let rest = each_unless-Ends skip l s all.1 in
        subst (Ends s (e ∷ l)) (sym (each_unless-skip skip send e l s skipped))
          (λ done. ((rest done).0, ((rest done).0 (at e) (all.0.1 skipped), (rest done).1)))
    | inr not_skipped ↦ elim (Bool-cases (send s e).1) [
      | inr failed ↦
          subst (Ends s (e ∷ l)) (sym (each_unless-failed skip send e l s not_skipped failed))
            (λ done. cc done)
      | inl sent ↦
          let (settled, keeps) = all.0.0 not_skipped s sent in
          let still = All-map _ _ l (λ a h. (h.0, λ skip. keeps (at a) (h.1 skip))) all.1 in
          let rest = each_unless-Ends skip l (send s e).0 still in
          subst (Ends s (e ∷ l)) (sym (each_unless-sent skip send e l s not_skipped sent)) (λ done.
            ((λ x h. (rest done).0 x (keeps x h)), ((rest done).0 (at e) settled, (rest done).1)))
    ]
  ]
