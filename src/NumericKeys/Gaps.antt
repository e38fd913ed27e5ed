-- ===== src/NumericKeys/Gaps.antt =====
-- The walk of `jth_free_token` in transforms/numeric_keys.py over the sorted blocked values.
use dbf_anonymizer.Prelude.{
  ℕ, suc, ◌≡◌, refl, true, false, inl, inr, arith, ◌∙◌, sym, ap, List, [], ◌∷◌, ◌&&◌, ◌||◌,
  Bool-cases, length, keep, ℤ, pos, ◌+ℤ◌, ◌-ℤ◌, ltb_ℤ, eqb_ℤ, ◌≤ℤ◌, ◌<ℤ◌, int_laws, mem, Ascends,
  Ascends-not_mem, parts_of_eq, ltb_ℤ→lt, ltb_ℤ→le, lt→ltb_ℤ, le→ltb_ℤ,
}
use dbf_anonymizer.Errors.{ok, err, value_error, ok-injective}
use dbf_anonymizer.NumericKeys.{NumericKeyDomain, contains_pseudonym, gap_walk}

nonneg_gap : (remaining gap : ℤ) → ltb_ℤ remaining gap ≡ false → pos 0 ≤ℤ remaining -ℤ gap
nonneg_gap remaining gap h = omega (int_laws, ltb_ℤ→le remaining gap h)

under_gap :
    (previous remaining v r : ℤ)
    → ltb_ℤ remaining (v -ℤ previous -ℤ pos 1) ≡ true
    → previous +ℤ pos 1 +ℤ remaining ≡ r
    → r <ℤ v
under_gap previous remaining v r h e =
    let less : remaining <ℤ v -ℤ previous -ℤ pos 1 =
      ltb_ℤ→lt remaining (v -ℤ previous -ℤ pos 1) h in
    omega (int_laws, parts_of_eq (previous +ℤ pos 1 +ℤ remaining) r e)

module _ (d : NumericKeyDomain) where
  -- the blocked values inside the domain, and those of them below `r`
  abbrev pub inside : List ℤ → ℕ
  inside vs = length (keep (contains_pseudonym d) vs)

  abbrev pub inside_below : ℤ → List ℤ → ℕ
  inside_below r vs = length (keep (λ x. contains_pseudonym d x && ltb_ℤ x r) vs)

  -- Where the walk stands: every later value of the domain is above `previous`.
  abbrev pub IsPast : ℤ → ℤ → Type 0
  IsPast b previous = (x : ℤ) → b <ℤ x → d.pseudonym_low ≤ℤ x → previous <ℤ x

  -- What the walk returns is free, and as many free tokens lie between as were asked for.
  pub record IsFound (previous remaining : ℤ) (vs : List ℤ) (r : ℤ) : Type 0 where
    pub above : previous <ℤ r
    pub within : r ≤ℤ d.pseudonym_high
    pub free : mem r vs ≡ false
    pub counted : r ≡ previous +ℤ pos 1 +ℤ remaining +ℤ pos (inside_below r vs)

  inside_below-none : (r b : ℤ) (vs : List ℤ) → r ≤ℤ b → Ascends b vs → inside_below r vs ≡ 0
  inside_below-none r b [] le up = refl
  inside_below-none r b (v ∷ vs) le up =
      let no_less : ltb_ℤ v r ≡ false = ground arith in
      let le' : r ≤ℤ v = omega arith in ground (arith, inside_below-none r v vs le' up.1)

  outside_ne :
      (v r previous : ℤ)
      → d.pseudonym_low ≤ℤ previous +ℤ pos 1
      → (ltb_ℤ v d.pseudonym_low || ltb_ℤ d.pseudonym_high v) ≡ true
      → previous <ℤ r
      → r ≤ℤ d.pseudonym_high
      → eqb_ℤ v r ≡ false
  outside_ne v r previous low out above within =
      let low' : d.pseudonym_low ≤ℤ r = omega int_laws in ground (arith, low')

  skip_outside :
      (v r : ℤ) (vs : List ℤ)
      → (ltb_ℤ v d.pseudonym_low || ltb_ℤ d.pseudonym_high v) ≡ true
      → inside_below r (v ∷ vs) ≡ inside_below r vs
  skip_outside v r vs out = let not_in : contains_pseudonym d v ≡ false = ground arith in rw not_in

  pub within_parts :
      (v : ℤ)
      → (ltb_ℤ v d.pseudonym_low || ltb_ℤ d.pseudonym_high v) ≡ false
      → (d.pseudonym_low ≤ℤ v) × (v ≤ℤ d.pseudonym_high)
  within_parts v h = (ground arith, ground arith)

  count_inside :
      (v r : ℤ) (vs : List ℤ)
      → (ltb_ℤ v d.pseudonym_low || ltb_ℤ d.pseudonym_high v) ≡ false
      → v <ℤ r
      → inside_below r (v ∷ vs) ≡ suc (inside_below r vs)
  count_inside v r vs h less =
      let counts : (contains_pseudonym d v && ltb_ℤ v r) ≡ true = ground arith in rw counts

  pub gap_walk-IsFound :
      (b previous remaining : ℤ) (vs : List ℤ) (r : ℤ)
      → Ascends b vs
      → IsPast b previous
      → d.pseudonym_low ≤ℤ previous +ℤ pos 1
      → pos 0 ≤ℤ remaining
      → gap_walk d previous remaining vs ≡ ok r
      → IsFound previous remaining vs r
  unfolding gap_walk
  gap_walk-IsFound b previous remaining [] r up past low nonneg h =
      let res = previous +ℤ pos 1 +ℤ remaining in
      let e : r ≡ res = ground arith in
      let fits : res ≤ℤ d.pseudonym_high = ground arith in
      let p = parts_of_eq r res e in
      record {
        above = omega (int_laws, p);
        within = omega (int_laws, p);
        free = refl;
        counted = omega (int_laws, p);
      }
  gap_walk-IsFound b previous remaining (v ∷ vs) r up past low nonneg h =
      elim (Bool-cases (ltb_ℤ v d.pseudonym_low || ltb_ℤ d.pseudonym_high v)) [
        | inl outside ↦
            let rest : gap_walk d previous remaining vs ≡ ok r = rw outside at h in
            let past' : IsPast v previous = λ x k l. past x (omega (arith, up.0)) l in
            let f = gap_walk-IsFound v previous remaining vs r up.1 past' low nonneg rest in
            let apart : eqb_ℤ v r ≡ false = outside_ne v r previous low outside f.above f.within in
            record {
              above = f.above;
              within = f.within;
              free = ground (arith, apart, f.free);
              counted =
                  f.counted
                  ∙ ap (λ (n : ℕ). previous +ℤ pos 1 +ℤ remaining +ℤ pos n)
                      (sym (skip_outside v r vs outside));
            }
        | inr inside_it ↦ elim (Bool-cases (ltb_ℤ remaining (v -ℤ previous -ℤ pos 1))) [
          | inl here ↦
              let res = previous +ℤ pos 1 +ℤ remaining in
              let e : res ≡ r = ok-injective (rw (inside_it, here) at h) in
              let p = parts_of_eq res r e in
              let under : r <ℤ v = under_gap previous remaining v r here e in
              let le : r ≤ℤ v = omega (arith, under) in
              let none_below : inside_below r (v ∷ vs) ≡ 0 =
                let no_less : ltb_ℤ v r ≡ false = ground arith in
                ground (arith, no_less, inside_below-none r v vs le up.1) in
              record {
                above = omega (int_laws, p);
                within = omega (arith, under, (within_parts v inside_it).1);
                free =
                    let ne : eqb_ℤ v r ≡ false = ground (arith, under) in
                    ground (arith, ne, Ascends-not_mem r v vs le up.1);
                counted = omega (int_laws, p, none_below);
              }
          | inr later ↦
              let gap = v -ℤ previous -ℤ pos 1 in
              let rest : gap_walk d v (remaining -ℤ gap) vs ≡ ok r = rw (inside_it, later) at h in
              let f =
                gap_walk-IsFound v v (remaining -ℤ gap) vs r up.1 (λ x k l. k)
                  (omega (int_laws, (within_parts v inside_it).0)) (nonneg_gap remaining gap later)
                  rest in
              let before : previous <ℤ v = past v up.0 (within_parts v inside_it).0 in
              let one : inside_below r (v ∷ vs) ≡ suc (inside_below r vs) =
                count_inside v r vs inside_it f.above in
              record {
                above = omega (arith, before, f.above);
                within = f.within;
                free =
                    let ne : eqb_ℤ v r ≡ false = ground (arith, f.above) in
                    ground (arith, ne, f.free);
                counted = omega (
                  int_laws,
                  one,
                  parts_of_eq r (v +ℤ pos 1 +ℤ (remaining -ℤ gap) +ℤ pos (inside_below r vs))
                      f.counted,
                );
              }
        ]
      ]

  pub inside_cons :
      (v : ℤ) (vs : List ℤ)
      → (ltb_ℤ v d.pseudonym_low || ltb_ℤ d.pseudonym_high v) ≡ false
      → inside (v ∷ vs) ≡ suc (inside vs)
  inside_cons v vs h = let counts : contains_pseudonym d v ≡ true = ground arith in rw counts

  pub outside_cons :
      (v : ℤ) (vs : List ℤ)
      → (ltb_ℤ v d.pseudonym_low || ltb_ℤ d.pseudonym_high v) ≡ true
      → inside (v ∷ vs) ≡ inside vs
  outside_cons v vs h = let skips : contains_pseudonym d v ≡ false = ground arith in rw skips

  pub inside-none : (b : ℤ) (vs : List ℤ) → d.pseudonym_high ≤ℤ b → Ascends b vs → inside vs ≡ 0
  inside-none b [] le up = refl
  inside-none b (v ∷ vs) le up =
      let skips : contains_pseudonym d v ≡ false = ground arith in
      rw skips (inside-none v vs (omega arith) up.1)

  -- Distinct values above `b` inside the domain are no more than the numbers from `b` to its end.
  pub inside-le :
      (b : ℤ) (vs : List ℤ)
      → b ≤ℤ d.pseudonym_high
      → Ascends b vs
      → pos (inside vs) ≤ℤ d.pseudonym_high -ℤ b
  inside-le b [] le up = omega int_laws
  inside-le b (v ∷ vs) le up =
      elim (Bool-cases (ltb_ℤ v d.pseudonym_low || ltb_ℤ d.pseudonym_high v)) [
        | inl outside ↦
            rw (outside_cons v vs outside) (elim (Bool-cases (ltb_ℤ d.pseudonym_high v)) [
              | inl over ↦
                  let high : d.pseudonym_high ≤ℤ v =
                    omega (arith, ltb_ℤ→lt d.pseudonym_high v over) in
                  rw (inside-none v vs high up.1) (omega int_laws)
              | inr fits ↦ omega (int_laws, inside-le v vs (ltb_ℤ→le d.pseudonym_high v fits) up.1)
            ])
        | inr within ↦
            rw (inside_cons v vs within)
              (omega (int_laws, inside-le v vs (within_parts v within).1 up.1))
      ]

  pub gap_walk_found :
      (previous remaining : ℤ) (vs : List ℤ)
      → remaining +ℤ pos (inside vs) <ℤ d.pseudonym_high -ℤ previous
      → (r : ℤ) × (gap_walk d previous remaining vs ≡ ok r)
  unfolding gap_walk
  gap_walk_found previous remaining [] room =
      let res = previous +ℤ pos 1 +ℤ remaining in
      let fits : ltb_ℤ d.pseudonym_high res ≡ false =
        le→ltb_ℤ d.pseudonym_high res (omega int_laws) in
      (res, rw fits)
  gap_walk_found previous remaining (v ∷ vs) room =
      elim (Bool-cases (ltb_ℤ v d.pseudonym_low || ltb_ℤ d.pseudonym_high v)) [
        | inl outside ↦
            let (r, e) =
              gap_walk_found previous remaining vs (rw (outside_cons v vs outside) at room) in
            (r, rw outside e)
        | inr within ↦ elim (Bool-cases (ltb_ℤ remaining (v -ℤ previous -ℤ pos 1))) [
          | inl here ↦ (previous +ℤ pos 1 +ℤ remaining, rw (within, here))
          | inr later ↦
              let gap = v -ℤ previous -ℤ pos 1 in
              let (r, e) =
                gap_walk_found v (remaining -ℤ gap) vs
                  (omega (int_laws, inside_cons v vs within)) in
              (r, rw (within, later) e)
        ]
      ]

  pub gap_walk_refused :
      (b previous remaining : ℤ) (vs : List ℤ)
      → Ascends b vs
      → d.pseudonym_high -ℤ previous ≤ℤ remaining +ℤ pos (inside vs)
      → gap_walk d previous remaining vs ≡ err value_error
  unfolding gap_walk
  gap_walk_refused b previous remaining [] up full =
      let over : ltb_ℤ d.pseudonym_high (previous +ℤ pos 1 +ℤ remaining) ≡ true =
        lt→ltb_ℤ d.pseudonym_high (previous +ℤ pos 1 +ℤ remaining) (omega int_laws) in
      rw over
  gap_walk_refused b previous remaining (v ∷ vs) up full =
      elim (Bool-cases (ltb_ℤ v d.pseudonym_low || ltb_ℤ d.pseudonym_high v)) [
        | inl outside ↦
            rw outside (
              gap_walk_refused v previous remaining vs up.1
                (rw (outside_cons v vs outside) at full))
        | inr within ↦
            let gap = v -ℤ previous -ℤ pos 1 in
            let few = inside-le v vs (within_parts v within).1 up.1 in
            let one = inside_cons v vs within in
            let later : ltb_ℤ remaining gap ≡ false =
              le→ltb_ℤ remaining gap (omega (int_laws, few, one)) in
            rw (within, later)
              (gap_walk_refused v v (remaining -ℤ gap) vs up.1 (omega (int_laws, one)))
      ]
