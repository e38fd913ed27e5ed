-- ===== src/Temporal/Offsets.antt =====
-- transforms/temporal.py: the candidates for the offset of a domain, counted and enumerated.
use mathlib.Core.Path.{subst}
use dbf_anonymizer.Prelude.{
  ℕ, suc, ◌≡◌, ◌≢◌, sym, ◌∙◌, ap, ◌⊎◌, inl, inr, ◌&&◌, Bool-cases, arith, ℤ, pos, ◌-ℤ◌, ltb_ℤ,
  leb_ℤ, ◌≤ℤ◌, ◌<ℤ◌, eqb_ℤ, eqb_ℤ_iff, eq_of_parts, parts_of_eq, -ℤ_parts,
}
use dbf_anonymizer.Errors.{ok, ok-injective}
use dbf_anonymizer.Temporal.{temporal_nonzero_count, temporal_offset_at}
use dbf_anonymizer.Temporal.Count.{
  Total, count_cases, count_natural, spans_zero→bounds, spans_zero→apart, offset_at-Lands, IsOffBy,
  Linear, Lands-Linear, empty_interval, zero_inside, zero_outside,
}

-- An offset that the domain may get: within the interval, and not the identity.
abbrev pub IsCandidate : ℤ → ℤ → ℤ → Type 0
IsCandidate lower upper r = (lower ≤ℤ r) × (r ≤ℤ upper) × (r ≢ pos 0)

nonzero : (r : ℤ) → ((r <ℤ pos 0) ⊎ (pos 0 <ℤ r)) → r ≢ pos 0
nonzero r side z = let e = parts_of_eq r (pos 0) z in ground arith

sides : (r : ℤ) → r ≢ pos 0 → (r <ℤ pos 0) ⊎ (pos 0 <ℤ r)
sides r h = elim (Bool-cases (eqb_ℤ r (pos 0))) [
  | inl same ↦ absurd (h ((eqb_ℤ_iff r (pos 0)).0 same))
  | inr other ↦ ground (arith, other)
]

-- The arithmetic of the three cases: an index below the count is a candidate's, and conversely.
module _ (lower upper index r : ℤ) (n : ℕ) (linear : Linear lower upper index r) where
  inside-IsCandidate :
      (lower ≤ℤ pos 0) × (pos 0 ≤ℤ upper)
      → Total lower upper (suc n)
      → (pos 0 ≤ℤ index) × (index <ℤ pos n)
      → (lower ≤ℤ r) × (r ≤ℤ upper) × ((r <ℤ pos 0) ⊎ (pos 0 <ℤ r))
  inside-IsCandidate spans total range = elim linear [
    | inl (_, _, neg, sum) ↦ (omega arith, omega arith, inl neg)
    | inr (inl (_, _, positive, sum)) ↦ (omega arith, omega arith, inr positive)
    | inr (inr (inl above, sum)) ↦ absurd (omega arith)
    | inr (inr (inr below, sum)) ↦ absurd (omega arith)
  ]

  outside-IsCandidate :
      (pos 0 <ℤ lower) ⊎ (upper <ℤ pos 0)
      → Total lower upper n
      → (pos 0 ≤ℤ index) × (index <ℤ pos n)
      → (lower ≤ℤ r) × (r ≤ℤ upper) × ((r <ℤ pos 0) ⊎ (pos 0 <ℤ r))
  outside-IsCandidate apart total range = elim linear [
    | inl (low, high, neg, sum) ↦ absurd (ground arith)
    | inr (inl (low, high, positive, sum)) ↦ absurd (ground arith)
    | inr (inr (inl above, sum)) ↦ (omega arith, omega arith, inr (omega arith))
    | inr (inr (inr below, sum)) ↦ (omega arith, omega arith, inl (omega arith))
  ]

-- An index below `temporal_nonzero_count` gets an offset of the interval that is not 0, never an
-- error.
pub temporal_offset_at-IsCandidate :
    (lower upper index : ℤ)
    → pos 0 ≤ℤ index
    → index <ℤ temporal_nonzero_count lower upper
    → (r : ℤ) × (temporal_offset_at lower upper index ≡ ok r) × IsCandidate lower upper r
temporal_offset_at-IsCandidate lower upper index low high = elim (count_cases lower upper) [
  | empty_interval c apart ↦
      let e = parts_of_eq (temporal_nonzero_count lower upper) (pos 0) c in absurd (omega arith)
  | zero_inside n c spans total ↦
      let e = parts_of_eq (temporal_nonzero_count lower upper) (pos n) c in
      let below : index <ℤ pos n = omega arith in
      let at = offset_at-Lands lower upper index n c low below in
      let line = Lands-Linear lower upper index at.0 at.2 in
      let cand =
        inside-IsCandidate lower upper index at.0 n line (spans_zero→bounds lower upper spans) total
          (low, below) in
      (at.0, at.1, (cand.0, cand.1, nonzero at.0 cand.2))
  | zero_outside n c apart total ↦
      let e = parts_of_eq (temporal_nonzero_count lower upper) (pos n) c in
      let below : index <ℤ pos n = omega arith in
      let at = offset_at-Lands lower upper index n c low below in
      let line = Lands-Linear lower upper index at.0 at.2 in
      let cand =
        outside-IsCandidate lower upper index at.0 n line (spans_zero→apart lower upper apart) total
          (low, below) in
      (at.0, at.1, (cand.0, cand.1, nonzero at.0 cand.2))
]

abbrev IsIndexOf : ℤ → ℤ → ℤ → ℤ → Type 0
IsIndexOf lower upper r index =
    (pos 0 ≤ℤ index) × (index <ℤ temporal_nonzero_count lower upper) × Linear lower upper index r

minus_lower : (lower r : ℤ) → IsOffBy 0 lower (r -ℤ lower) r
minus_lower lower r = let p = -ℤ_parts r lower in omega arith

minus_lower_and_zero : (lower r : ℤ) → IsOffBy 1 lower (r -ℤ lower -ℤ pos 1) r
minus_lower_and_zero lower r =
    let p = -ℤ_parts r lower in let q = -ℤ_parts (r -ℤ lower) (pos 1) in omega arith

-- the index of a candidate
index_for :
    (lower upper r : ℤ) → IsCandidate lower upper r → (index : ℤ) × IsIndexOf lower upper r index
index_for lower upper r (above, below, other) = elim (count_cases lower upper) [
  | empty_interval c apart ↦ absurd (omega arith)
  | zero_inside n c spans total ↦
      let e = parts_of_eq (temporal_nonzero_count lower upper) (pos n) c in
      let bounds = spans_zero→bounds lower upper spans in
      elim (sides r other) [
        | inl neg ↦
            let off = minus_lower lower r in
            (r -ℤ lower, (omega arith, omega arith, inl (bounds.0, bounds.1, neg, off)))
        | inr positive ↦
            let off = minus_lower_and_zero lower r in
            (
              r -ℤ lower -ℤ pos 1,
              (omega arith, omega arith, inr (inl (bounds.0, bounds.1, positive, off))),
            )
      ]
  | zero_outside n c apart total ↦
      let e = parts_of_eq (temporal_nonzero_count lower upper) (pos n) c in
      let off = minus_lower lower r in
      (r -ℤ lower, (omega arith, omega arith, inr (inr (spans_zero→apart lower upper apart, off))))
]

-- A success has an index in range.
offset_at-range :
    (lower upper index r : ℤ)
    → temporal_offset_at lower upper index ≡ ok r
    → (pos 0 ≤ℤ index) × (index <ℤ temporal_nonzero_count lower upper)
unfolding temporal_offset_at
offset_at-range lower upper index r h =
    elim (Bool-cases (leb_ℤ (pos 0) index && ltb_ℤ index (temporal_nonzero_count lower upper))) [
      | inl inside ↦ ground (arith, inside)
      | inr out ↦ ground (arith, out)
    ]

offset_at-Linear :
    (lower upper index r : ℤ)
    → temporal_offset_at lower upper index ≡ ok r
    → Linear lower upper index r
offset_at-Linear lower upper index r h =
    let range = offset_at-range lower upper index r h in
    let n = count_natural lower upper in
    let e = parts_of_eq (temporal_nonzero_count lower upper) (pos n.0) n.1 in
    let at = offset_at-Lands lower upper index n.0 n.1 range.0 (omega arith) in
    let same : at.0 ≡ r = ok-injective (sym at.1 ∙ h) in
    subst (Linear lower upper index) same (Lands-Linear lower upper index at.0 at.2)

-- two candidates at the same index are the same, and an index is determined by its candidate
Linear-functional :
    (lower upper index r s : ℤ) → Linear lower upper index r → Linear lower upper index s → r ≡ s
Linear-functional lower upper index r s a b = eq_of_parts r s (ground arith)

Linear-injective : (lower upper i j r : ℤ) → Linear lower upper i r → Linear lower upper j r → i ≡ j
Linear-injective lower upper i j r a b = eq_of_parts i j (ground arith)

-- `temporal_offset_at` enumerates: each offset of the interval other than 0 is the one at exactly
-- one index below the count.
pub temporal_offset_at-covers :
    (lower upper r : ℤ)
    → IsCandidate lower upper r
    → (index : ℤ) × ((pos 0 ≤ℤ index) × (index <ℤ temporal_nonzero_count lower upper))
      × (temporal_offset_at lower upper index ≡ ok r)
      × ((other : ℤ) → temporal_offset_at lower upper other ≡ ok r → other ≡ index)
temporal_offset_at-covers lower upper r candidate =
    let found = index_for lower upper r candidate in
    let at = temporal_offset_at-IsCandidate lower upper found.0 found.1.0 found.1.1 in
    let line = offset_at-Linear lower upper found.0 at.0 at.1 in
    let same : at.0 ≡ r = Linear-functional lower upper found.0 at.0 r line found.1.2 in
    (
      found.0,
      (found.1.0, found.1.1),
      at.1 ∙ ap ok same,
      λ other h.
          Linear-injective lower upper other found.0 r (offset_at-Linear lower upper other r h)
            found.1.2,
    )
