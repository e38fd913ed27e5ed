-- ===== src/Temporal/Count.antt =====
-- transforms/temporal.py: the count of the feasible offsets and the branches of the enumeration.
use dbf_anonymizer.Prelude.{
  ℕ, suc, ◌+◌, ◌-◌, ◌<◌, ◌≡◌, refl, ◌⊎◌, inl, inr, true, false, ◌&&◌, Bool-cases, arith, ℤ, pos,
  pos_part, neg_part, ◌+ℤ◌, ◌-ℤ◌, -ℤ_of, ltb_ℤ, ltb_ℤ→lt, ltb_ℤ→le, leb_ℤ, ◌≤ℤ◌, ◌<ℤ◌, parts_of_eq,
  +ℤ_parts, -ℤ_parts,
}
use dbf_anonymizer.Errors.{ok}
use dbf_anonymizer.Temporal.{spans_zero, temporal_nonzero_count, temporal_offset_at}

-- The bounds of the count: how many integers the interval holds, less 0 where it is inside.
abbrev pub Total : ℤ → ℤ → ℕ → Type 0
Total lower upper n = pos_part upper + neg_part lower + 1 ≡ n + neg_part upper + pos_part lower

pub total_parts :
    (lower upper : ℤ)
    → pos_part (upper -ℤ lower +ℤ pos 1) + neg_part upper + pos_part lower
      ≡ pos_part upper + neg_part lower + 1 + neg_part (upper -ℤ lower +ℤ pos 1)
total_parts lower upper =
    let p = -ℤ_parts upper lower in let q = +ℤ_parts (upper -ℤ lower) (pos 1) in omega arith

-- `temporal_nonzero_count` in the three cases of its body
pub data CountCase (lower upper : ℤ) : Type 0 where
  empty_interval :
      temporal_nonzero_count lower upper ≡ pos 0 → upper <ℤ lower → CountCase lower upper
  zero_inside :
      (n : ℕ)
      → temporal_nonzero_count lower upper ≡ pos n
      → spans_zero lower upper ≡ true
      → Total lower upper (suc n)
      → CountCase lower upper
  zero_outside :
      (n : ℕ)
      → temporal_nonzero_count lower upper ≡ pos n
      → spans_zero lower upper ≡ false
      → Total lower upper n
      → CountCase lower upper

pub positive-less_one : (t : ℤ) → leb_ℤ t (pos 0) ≡ false → t -ℤ pos 1 ≡ pos (pos_part t - 1)
unfolding ◌-ℤ◌
positive-less_one t h = ground arith

pub positive-eq : (t : ℤ) → leb_ℤ t (pos 0) ≡ false → t ≡ pos (pos_part t)
positive-eq t h = ground arith

pub positive-parts : (t : ℤ) → leb_ℤ t (pos 0) ≡ false → (0 < pos_part t) × (neg_part t ≡ 0)
positive-parts t h = ground arith

pub not_positive : (t : ℤ) → leb_ℤ t (pos 0) ≡ true → pos_part t ≡ 0
not_positive t h = ground arith

pub count_cases : (lower upper : ℤ) → CountCase lower upper
unfolding temporal_nonzero_count
count_cases lower upper =
    let total : ℤ = upper -ℤ lower +ℤ pos 1 in
    let parts = total_parts lower upper in
    elim (Bool-cases (leb_ℤ (upper -ℤ lower +ℤ pos 1) (pos 0))) [
      | inl empty ↦ let z = not_positive total empty in empty_interval (rw empty) (omega arith)
      | inr full ↦
          let f = positive-parts total full in
          elim (Bool-cases (spans_zero lower upper)) [
            | inl inside ↦
                zero_inside (pos_part total - 1) (rw (full, inside) (positive-less_one total full))
                  inside (omega arith)
            | inr outside ↦
                zero_outside (pos_part total) (rw (full, outside) (positive-eq total full)) outside
                  (omega arith)
          ]
    ]

pub count_natural : (lower upper : ℤ) → (n : ℕ) × (temporal_nonzero_count lower upper ≡ pos n)
count_natural lower upper = elim (count_cases lower upper) [
  | empty_interval c _ ↦ (0, c)
  | zero_inside n c _ _ ↦ (n, c)
  | zero_outside n c _ _ ↦ (n, c)
]

pub spans_zero→bounds :
    (lower upper : ℤ) → spans_zero lower upper ≡ true → (lower ≤ℤ pos 0) × (pos 0 ≤ℤ upper)
spans_zero→bounds lower upper h = ground arith

pub spans_zero→apart :
    (lower upper : ℤ) → spans_zero lower upper ≡ false → (pos 0 <ℤ lower) ⊎ (upper <ℤ pos 0)
spans_zero→apart lower upper h = ground arith

pub index_in :
    (index : ℤ) (n : ℕ)
    → pos 0 ≤ℤ index
    → index <ℤ pos n
    → (leb_ℤ (pos 0) index && ltb_ℤ index (pos n)) ≡ true
index_in index n low high = ground arith

pub -ℤ_of_parts : (a : ℤ) → pos_part (-ℤ_of a) + pos_part a ≡ neg_part (-ℤ_of a) + neg_part a
-ℤ_of_parts a = ground arith

-- where an index below the count leads: past 0 when 0 comes first
abbrev pub Lands : ℤ → ℤ → ℤ → ℤ → Type 0
Lands lower upper index r =
    ((spans_zero lower upper ≡ true) × (index <ℤ -ℤ_of lower) × (r ≡ lower +ℤ index))
    ⊎ (((spans_zero lower upper ≡ true) × (-ℤ_of lower ≤ℤ index) × (r ≡ lower +ℤ index +ℤ pos 1))
        ⊎ ((spans_zero lower upper ≡ false) × (r ≡ lower +ℤ index)))

pub offset_at-Lands :
    (lower upper index : ℤ) (n : ℕ)
    → temporal_nonzero_count lower upper ≡ pos n
    → pos 0 ≤ℤ index
    → index <ℤ pos n
    → (r : ℤ) × (temporal_offset_at lower upper index ≡ ok r) × Lands lower upper index r
unfolding temporal_offset_at
offset_at-Lands lower upper index n count low high =
    let inside = index_in index n low high in
    elim (Bool-cases (spans_zero lower upper)) [
      | inl spans ↦ elim (Bool-cases (ltb_ℤ index (-ℤ_of lower))) [
        | inl before ↦ (
          lower +ℤ index,
          rw (count, inside, spans, before),
          inl (spans, ltb_ℤ→lt index (-ℤ_of lower) before, refl),
        )
        | inr after ↦ (
          lower +ℤ index +ℤ pos 1,
          rw (count, inside, spans, after),
          inr (inl (spans, ltb_ℤ→le index (-ℤ_of lower) after, refl)),
        )
      ]
      | inr apart ↦ (lower +ℤ index, rw (count, inside, apart), inr (inr (apart, refl)))
    ]

-- r - lower - index = k
abbrev pub IsOffBy : ℕ → ℤ → ℤ → ℤ → Type 0
IsOffBy k lower index r =
    pos_part r + neg_part lower + neg_part index ≡ neg_part r + pos_part lower + pos_part index + k

abbrev pub Linear : ℤ → ℤ → ℤ → ℤ → Type 0
Linear lower upper index r =
    ((lower ≤ℤ pos 0) × (pos 0 ≤ℤ upper) × (r <ℤ pos 0) × IsOffBy 0 lower index r)
    ⊎ (((lower ≤ℤ pos 0) × (pos 0 ≤ℤ upper) × (pos 0 <ℤ r) × IsOffBy 1 lower index r)
        ⊎ (((pos 0 <ℤ lower) ⊎ (upper <ℤ pos 0)) × IsOffBy 0 lower index r))

pub Lands-Linear :
    (lower upper index r : ℤ) → Lands lower upper index r → Linear lower upper index r
Lands-Linear lower upper index r lands =
    let p = +ℤ_parts lower index in
    let q = +ℤ_parts (lower +ℤ index) (pos 1) in
    let m = -ℤ_of_parts lower in
    elim lands [
      | inl (spans, before, e) ↦
          let b = spans_zero→bounds lower upper spans in
          let e2 = parts_of_eq r (lower +ℤ index) e in inl (b.0, b.1, omega arith, omega arith)
      | inr (inl (spans, after, e)) ↦
          let b = spans_zero→bounds lower upper spans in
          let e2 = parts_of_eq r (lower +ℤ index +ℤ pos 1) e in
          inr (inl (b.0, b.1, omega arith, omega arith))
      | inr (inr (apart, e)) ↦
          let e2 = parts_of_eq r (lower +ℤ index) e in
          inr (inr (spans_zero→apart lower upper apart, omega arith))
    ]
