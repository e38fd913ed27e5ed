-- ===== src/Engine/CastOrder.antt =====
-- engine/pass1.py: what the casts of its queries leave of integers that stay within 64 bits.
use mathlib.Core.Path.{subst}
use dbf_anonymizer.Prelude.{
  ◌≡◌, refl, sym, ◌∙◌, ap, ◌⊎◌, inl, inr, true, ◌&&◌, ◌||◌, Bool-cases, List, [], ◌∷◌, map, keep, ℤ,
  ltb_ℤ, eqb_ℤ, eqb_ℤ_iff, ◌≤ℤ◌, ◌<ℤ◌, mem, IsAscending, arith, ltb_ℤ→le, le→ltb_ℤ,
}
use dbf_anonymizer.NumericKeys.{NumericKeyDomain, contains_pseudonym}
use dbf_anonymizer.NumericKeys.Bijection.{IsNodup}
use dbf_anonymizer.Engine.SqlIntegers.{
  min_integer, max_integer, fits_integer, cast_integer, insert_by_cast, order_by_cast,
}

pub cast_integer-eq : (v : ℤ) → min_integer ≤ℤ v → v ≤ℤ max_integer → cast_integer v ≡ v
cast_integer-eq v low high =
    let a = le→ltb_ℤ v min_integer low in let b = le→ltb_ℤ max_integer v high in rw (a, b)

-- a domain that lies between the bounds of the 64-bit integers
abbrev pub IsNarrow : NumericKeyDomain → Type 0
IsNarrow d = (min_integer <ℤ d.pseudonym_low) × (d.pseudonym_high <ℤ max_integer)

module _ (d : NumericKeyDomain) (narrow : IsNarrow d) where
  pub contained-cast : (v : ℤ) → contains_pseudonym d v ≡ true → cast_integer v ≡ v
  contained-cast v h = cast_integer-eq v (ground (arith, h, narrow.0)) (ground (arith, h, narrow.1))

  pub contains-cast : (v : ℤ) → contains_pseudonym d (cast_integer v) ≡ contains_pseudonym d v
  contains-cast v = elim (Bool-cases (ltb_ℤ v min_integer)) [
    | inl small ↦ rw small (ground (arith, small, narrow.0))
    | inr large ↦ elim (Bool-cases (ltb_ℤ max_integer v)) [
      | inl over ↦ rw (large, over) (ground (arith, over, narrow.1))
      | inr fits ↦ rw (large, fits)
    ]
  ]

  -- the bounds of a narrow domain can be bound, if it has a value
  pub narrow-fits :
      d.pseudonym_low ≤ℤ d.pseudonym_high
      → (fits_integer d.pseudonym_low && fits_integer d.pseudonym_high) ≡ true
  narrow-fits order = ground (arith, narrow.0, narrow.1, order)

  -- a cast brings no value into the domain and changes none that is there
  pub keep-cast :
      (vs : List ℤ)
      → keep (contains_pseudonym d) (map cast_integer vs) ≡ keep (contains_pseudonym d) vs
  keep-cast [] = refl
  keep-cast (v ∷ vs) = elim (Bool-cases (contains_pseudonym d v)) [
    | inl inside ↦
        let same = contained-cast v inside in
        rw (contains-cast v, inside, same) (ap (◌∷◌ v) (keep-cast vs))
    | inr outside ↦ rw (contains-cast v, outside) (keep-cast vs)
  ]

pub mem-insert_by_cast :
    (a b : ℤ) (s : List ℤ) → mem b (insert_by_cast a s) ≡ (eqb_ℤ a b || mem b s)
mem-insert_by_cast a b [] = refl
mem-insert_by_cast a b (x ∷ xs) = elim (Bool-cases (ltb_ℤ (cast_integer x) (cast_integer a))) [
  | inl after ↦ rw after (ground (arith, mem-insert_by_cast a b xs))
  | inr before ↦ rw before
]

pub mem-order_by_cast : (b : ℤ) (xs : List ℤ) → mem b (order_by_cast xs) ≡ mem b xs
unfolding order_by_cast
mem-order_by_cast b [] = refl
mem-order_by_cast b (x ∷ xs) =
    mem-insert_by_cast x b (order_by_cast xs) ∙ ap (λ m. eqb_ℤ x b || m) (mem-order_by_cast b xs)

-- each value's cast is at most those of the values after it
abbrev IsOrdered : List ℤ → Type 0
IsOrdered [] = Unit
IsOrdered (x ∷ xs) = ((y : ℤ) → mem y xs ≡ true → cast_integer x ≤ℤ cast_integer y) × IsOrdered xs

first_or_rest :
    (a y : ℤ) (xs : List ℤ) → (eqb_ℤ a y || mem y xs) ≡ true → (a ≡ y) ⊎ (mem y xs ≡ true)
first_or_rest a y xs m = elim (Bool-cases (eqb_ℤ a y)) [
  | inl same ↦ inl ((eqb_ℤ_iff a y).0 same)
  | inr other ↦ inr (ground (arith, m, other))
]

ltb→le : (a b : ℤ) → ltb_ℤ a b ≡ true → a ≤ℤ b
ltb→le a b h = ground arith

le_trans : (a b c : ℤ) → a ≤ℤ b → b ≤ℤ c → a ≤ℤ c
le_trans a b c h k = omega arith

-- a value in front of a list that it is not after
below_all :
    (a x : ℤ) (xs : List ℤ)
    → cast_integer a ≤ℤ cast_integer x
    → IsOrdered (x ∷ xs)
    → (y : ℤ) → mem y (x ∷ xs) ≡ true
    → cast_integer a ≤ℤ cast_integer y
below_all a x xs le h y m = elim (first_or_rest x y xs m) [
  | inl same ↦ subst (λ v. cast_integer a ≤ℤ cast_integer v) same le
  | inr rest ↦ le_trans (cast_integer a) (cast_integer x) (cast_integer y) le (h.0 y rest)
]

-- the first value stays in front of an inserted one that is after it
still_first :
    (a x : ℤ) (xs : List ℤ)
    → cast_integer x ≤ℤ cast_integer a
    → IsOrdered (x ∷ xs)
    → (y : ℤ) → mem y (insert_by_cast a xs) ≡ true
    → cast_integer x ≤ℤ cast_integer y
still_first a x xs le h y m = elim (first_or_rest a y xs (sym (mem-insert_by_cast a y xs) ∙ m)) [
  | inl same ↦ subst (λ v. cast_integer x ≤ℤ cast_integer v) same le
  | inr rest ↦ h.0 y rest
]

insert_by_cast-IsOrdered : (a : ℤ) (s : List ℤ) → IsOrdered s → IsOrdered (insert_by_cast a s)
insert_by_cast-IsOrdered a [] h = (λ y m. cc, tt)
insert_by_cast-IsOrdered a (x ∷ xs) h =
    elim (Bool-cases (ltb_ℤ (cast_integer x) (cast_integer a))) [
      | inl after ↦ rw after (
        still_first a x xs (ltb→le (cast_integer x) (cast_integer a) after) h,
        insert_by_cast-IsOrdered a xs h.1,
      )
      | inr before ↦
          rw before (below_all a x xs (ltb_ℤ→le (cast_integer x) (cast_integer a) before) h, h)
    ]

order_by_cast-IsOrdered : (xs : List ℤ) → IsOrdered (order_by_cast xs)
unfolding order_by_cast
order_by_cast-IsOrdered [] = tt
order_by_cast-IsOrdered (x ∷ xs) = insert_by_cast-IsOrdered x _ (order_by_cast-IsOrdered xs)

ordered-IsAscending :
    (s : List ℤ)
    → IsOrdered s
    → IsNodup s
    → ((v : ℤ) → mem v s ≡ true → cast_integer v ≡ v)
    → IsAscending s
ordered-IsAscending [] h nodup exact = tt
ordered-IsAscending (x ∷ []) h nodup exact = tt
ordered-IsAscending (x ∷ y ∷ ys) h nodup exact =
    let at_x = exact x (ground (arith, (eqb_ℤ_iff x x).1 refl)) in
    let at_y = exact y (ground (arith, (eqb_ℤ_iff y y).1 refl)) in
    let le : cast_integer x ≤ℤ cast_integer y = h.0 y (ground (arith, (eqb_ℤ_iff y y).1 refl)) in
    let exact_le : x ≤ℤ y = subst (λ v. v ≤ℤ y) at_x (subst (λ v. cast_integer x ≤ℤ v) at_y le) in
    (
      ground (arith, exact_le, nodup.0),
      ordered-IsAscending (y ∷ ys) h.1 nodup.1 (λ v m. exact v (ground (arith, m))),
    )

-- Distinct values that the cast does not change come in ascending order.
pub order_by_cast-IsAscending :
    (xs : List ℤ)
    → IsNodup (order_by_cast xs)
    → ((v : ℤ) → mem v (order_by_cast xs) ≡ true → cast_integer v ≡ v)
    → IsAscending (order_by_cast xs)
order_by_cast-IsAscending xs = ordered-IsAscending (order_by_cast xs) (order_by_cast-IsOrdered xs)
