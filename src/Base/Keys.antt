-- ===== src/Base/Keys.antt =====
-- Keys of ordered maps: numbers, byte strings (compared byte by byte, as std::string is) and pairs.
use sis_op.Base.{
  ℕ, ◌≡◌, refl, sym, Bool-cases, inl, inr, Bool, true, false, List, [], ◌∷◌, arith, compare,
  Ordering,
}

-- A three-way comparison whose `eq` is equality.
pub record Key {ℓ} (K : Type ℓ) : Type ℓ where
  pub cmp : K → K → Ordering
  pub eq_of_cmp : (a b : K) → cmp a b ≡ Ordering.eq → a ≡ b
  pub cmp_self : (a : K) → cmp a a ≡ Ordering.eq

-- The equality test that the comparison gives.
abbrev pub same {ℓ} : {K : Type ℓ} ⦃o : Key K⦄ → K → K → Bool
same ⦃o⦄ a b = elim (o.cmp a b) [ Ordering.eq ↦ true | _ ↦ false ]

module _ {ℓ} {K : Type ℓ} ⦃o : Key K⦄ where
  pub same_self : (a : K) → same a a ≡ true
  same_self a = ground (arith, o.cmp_self a)

  pub same_of_eq : (a b : K) → a ≡ b → same a b ≡ true
  same_of_eq a b e = rw e (same_self b)

  pub eq_of_same : (a b : K) → same a b ≡ true → a ≡ b
  eq_of_same a b h = o.eq_of_cmp a b (ground arith)

  pub same_flip : (a b : K) → same a b ≡ false → same b a ≡ false
  same_flip a b h = elim (Bool-cases (same b a)) [
    | inr e ↦ e
    | inl e ↦ cc (h, same_of_eq a b (sym (eq_of_same b a e)))
  ]

pub compare-eq : (a b : ℕ) → compare a b ≡ Ordering.eq → a ≡ b
compare-eq a b h = ground arith

pub compare_self : (a : ℕ) → compare a a ≡ Ordering.eq
compare_self a = ground arith

instance abbrev pub nat_key : Key ℕ
nat_key = record { cmp = compare; eq_of_cmp = compare-eq; cmp_self = compare_self }

-- A byte string.
abbrev pub Bytes : Type 0
Bytes = List ℕ

abbrev then_by : Ordering → Ordering → Ordering
then_by Ordering.lt r = Ordering.lt
then_by Ordering.eq r = r
then_by Ordering.gt r = Ordering.gt

unfoldable pub bytes_cmp : Bytes → Bytes → Ordering
bytes_cmp [] [] = Ordering.eq
bytes_cmp [] (y ∷ ys) = Ordering.lt
bytes_cmp (x ∷ xs) [] = Ordering.gt
bytes_cmp (x ∷ xs) (y ∷ ys) = then_by (compare x y) (bytes_cmp xs ys)

pub bytes_cmp-eq : (a b : Bytes) → bytes_cmp a b ≡ Ordering.eq → a ≡ b
unfolding bytes_cmp
bytes_cmp-eq [] [] h = refl
bytes_cmp-eq [] (y ∷ ys) h = cc
bytes_cmp-eq (x ∷ xs) [] h = cc
bytes_cmp-eq (x ∷ xs) (y ∷ ys) h = ground (arith, bytes_cmp-eq xs ys)

pub bytes_cmp_self : (a : Bytes) → bytes_cmp a a ≡ Ordering.eq
unfolding bytes_cmp
bytes_cmp_self [] = refl
bytes_cmp_self (x ∷ xs) = ground (arith, bytes_cmp_self xs)

instance abbrev pub bytes_key : Key Bytes
bytes_key = record { cmp = bytes_cmp; eq_of_cmp = bytes_cmp-eq; cmp_self = bytes_cmp_self }

-- std::pair of two strings.
abbrev pub pair_cmp : Bytes × Bytes → Bytes × Bytes → Ordering
pair_cmp a b = then_by (bytes_cmp a.0 b.0) (bytes_cmp a.1 b.1)

pub pair_cmp-eq : (a b : Bytes × Bytes) → pair_cmp a b ≡ Ordering.eq → a ≡ b
pair_cmp-eq a b h = ground (arith, bytes_cmp-eq a.0 b.0, bytes_cmp-eq a.1 b.1)

pub pair_cmp_self : (a : Bytes × Bytes) → pair_cmp a a ≡ Ordering.eq
pair_cmp_self a = ground (arith, bytes_cmp_self a.0, bytes_cmp_self a.1)

instance abbrev pub pair_key : Key (Bytes × Bytes)
pair_key = record { cmp = pair_cmp; eq_of_cmp = pair_cmp-eq; cmp_self = pair_cmp_self }
