-- ===== src/NumericKeys/Free.antt =====
-- `free_token_count` and `jth_free_token` of transforms/numeric_keys.py agree.
use dbf_anonymizer.Prelude.{
  suc, ◌≡◌, refl, ◌⊎◌, Bool, true, false, inl, inr, arith, ◌∙◌, sym, ap, List, [], ◌∷◌, ◌&&◌, ◌||◌,
  Bool-cases, length, keep, ℤ, pos, ◌+ℤ◌, ◌-ℤ◌, ltb_ℤ, eqb_ℤ, eqb_ℤ_iff, ◌≤ℤ◌, ◌<ℤ◌, int_laws, mem,
  set_of, length-insert, mem-set_of, set_of-IsAscending, set_of-keep, set_of-cons,
  Ascends→IsAscending, IsAscending, parts_of_eq, le→ltb_ℤ,
}
use dbf_anonymizer.Errors.{ok, err, value_error}
use dbf_anonymizer.NumericKeys.{
  NumericKeyDomain, size, contains_pseudonym, blocked_in, free_token_count, jth_free_token,
  gap_walk,
}
use dbf_anonymizer.NumericKeys.Gaps.{
  inside, inside_below, IsFound, gap_walk-IsFound, gap_walk_found, gap_walk_refused, inside-le,
  inside_cons, outside_cons, within_parts,
}

pub mem-keep : (p : ℤ → Bool) (a : ℤ) (xs : List ℤ) → mem a (keep p xs) ≡ (mem a xs && p a)
mem-keep p a [] = refl
mem-keep p a (x ∷ xs) = elim (Bool-cases (eqb_ℤ x a)) [
  | inl same ↦ let e : x ≡ a = (eqb_ℤ_iff x a).0 same in rw e (ground (arith, mem-keep p a xs))
  | inr other ↦ ground (arith, mem-keep p a xs)
]

module _ (d : NumericKeyDomain) where
  pub mem-blocked_in :
      (a : ℤ) (occupied : List ℤ)
      → mem a (blocked_in d occupied) ≡ (mem a occupied && contains_pseudonym d a)
  mem-blocked_in a occupied =
      mem-set_of a (keep (contains_pseudonym d) occupied)
      ∙ mem-keep (contains_pseudonym d) a occupied

  -- A token that is in the domain and not occupied.
  abbrev pub IsFree : List ℤ → ℤ → Type 0
  IsFree occupied t = (contains_pseudonym d t ≡ true) × (mem t occupied ≡ false)

  free_token_count-inside :
      (occupied : List ℤ) → free_token_count d occupied ≡ size d -ℤ pos (inside d (set_of occupied))
  unfolding free_token_count
  free_token_count-inside occupied =
      ap (λ (s : List ℤ). size d -ℤ pos (length s)) (set_of-keep (contains_pseudonym d) occupied)

  -- Occupying a free token takes exactly one from the count.
  pub free_token_count-occupy :
      (t : ℤ) (occupied : List ℤ)
      → IsFree occupied t
      → free_token_count d (t ∷ occupied) +ℤ pos 1 ≡ free_token_count d occupied
  unfolding free_token_count
  free_token_count-occupy t occupied (within, free) =
      let old = blocked_in d occupied in
      let new : mem t old ≡ false = mem-blocked_in t occupied ∙ ground arith in
      let one_more : length (blocked_in d (t ∷ occupied)) ≡ suc (length old) = rw within (
        rw (set_of-cons t (keep (contains_pseudonym d) occupied)) (
          length-insert t old (set_of-IsAscending (keep (contains_pseudonym d) occupied))
          ∙ rw new)) in
      omega (int_laws, one_more)

  inside-le-size :
      (vs : List ℤ)
      → d.pseudonym_low ≤ℤ d.pseudonym_high
      → IsAscending vs
      → pos (inside d vs) ≤ℤ size d
  inside-le-size [] valid up = omega int_laws
  inside-le-size (v ∷ vs) valid up =
      elim (Bool-cases (ltb_ℤ v d.pseudonym_low || ltb_ℤ d.pseudonym_high v)) [
        | inl outside ↦
            rw (outside_cons d v vs outside) (inside-le-size vs valid (Ascends→IsAscending v vs up))
        | inr within ↦
            let (low, high) = within_parts d v within in
            rw (inside_cons d v vs within) (omega (int_laws, inside-le d v vs high up))
      ]

  pub free_token_count_nonneg :
      (occupied : List ℤ)
      → d.pseudonym_low ≤ℤ d.pseudonym_high
      → pos 0 ≤ℤ free_token_count d occupied
  free_token_count_nonneg occupied valid =
      rw (free_token_count-inside occupied)
        (omega (int_laws, inside-le-size (set_of occupied) valid (set_of-IsAscending occupied)))

  -- One token is free as long as the count is positive, and another as long as it is two.
  pub free_token_count_pos :
      (t : ℤ) (occupied : List ℤ)
      → d.pseudonym_low ≤ℤ d.pseudonym_high
      → IsFree occupied t
      → pos 1 ≤ℤ free_token_count d occupied
  free_token_count_pos t occupied valid free = omega (
    int_laws,
    free_token_count_nonneg (t ∷ occupied) valid,
    parts_of_eq (free_token_count d (t ∷ occupied) +ℤ pos 1) (free_token_count d occupied)
        (free_token_count-occupy t occupied free),
  )

  -- The `j`-th free token: free, with exactly `j` free tokens of the domain below it (the numbers
  -- from the low end up to it, less the blocked ones among them).
  pub record IsJthFree (blocked : List ℤ) (j r : ℤ) : Type 0 where
    pub within : contains_pseudonym d r ≡ true
    pub free : mem r blocked ≡ false
    pub rank : r -ℤ d.pseudonym_low -ℤ pos (inside_below d r (set_of blocked)) ≡ j

  abbrev start : ℤ
  start = d.pseudonym_low -ℤ pos 1

  start-IsPast : (b x : ℤ) → b <ℤ x → d.pseudonym_low ≤ℤ x → start <ℤ x
  start-IsPast b x h low = omega int_laws

  walk-IsFound :
      (j : ℤ) (vs : List ℤ) (r : ℤ)
      → IsAscending vs
      → pos 0 ≤ℤ j
      → gap_walk d start j vs ≡ ok r
      → IsFound d start j vs r
  walk-IsFound j [] r up nonneg h =
      gap_walk-IsFound d start start j [] r tt (start-IsPast start) (omega int_laws) nonneg h
  walk-IsFound j (v ∷ vs) r up nonneg h =
      gap_walk-IsFound d (v -ℤ pos 1) start j (v ∷ vs) r (omega int_laws, up)
        (start-IsPast (v -ℤ pos 1)) (omega int_laws) nonneg h

  walk_refused :
      (j : ℤ) (vs : List ℤ)
      → IsAscending vs
      → d.pseudonym_high -ℤ start ≤ℤ j +ℤ pos (inside d vs)
      → gap_walk d start j vs ≡ err value_error
  walk_refused j [] up full = gap_walk_refused d start start j [] tt full
  walk_refused j (v ∷ vs) up full =
      gap_walk_refused d (v -ℤ pos 1) start j (v ∷ vs) (omega int_laws, up) full

  -- A non-negative index below the free count has its token: `jth_free_token` returns it, and it is
  -- a token of the domain, not blocked, with exactly `j` free tokens below it.
  pub jth_free_token-IsJthFree :
      (blocked : List ℤ) (j : ℤ)
      → pos 0 ≤ℤ j
      → j <ℤ free_token_count d blocked
      → (r : ℤ) × (jth_free_token d blocked j ≡ ok r) × IsJthFree blocked j r
  unfolding jth_free_token
  jth_free_token-IsJthFree blocked j nonneg small =
      let vs = set_of blocked in
      let count =
        parts_of_eq (free_token_count d blocked) (size d -ℤ pos (inside d vs))
          (free_token_count-inside blocked) in
      let (r, found) = gap_walk_found d start j vs (omega (int_laws, count)) in
      let f = walk-IsFound j vs r (set_of-IsAscending blocked) nonneg found in
      let valid : ltb_ℤ j (pos 0) ≡ false = le→ltb_ℤ j (pos 0) nonneg in
      let low : d.pseudonym_low ≤ℤ r = omega (int_laws, f.above) in
      let high : r ≤ℤ d.pseudonym_high = f.within in
      (
        r,
        rw valid found,
        record {
          within = ground (arith, low, high);
          free = sym (mem-set_of r blocked) ∙ f.free;
          rank = omega (
            int_laws,
            parts_of_eq r (start +ℤ pos 1 +ℤ j +ℤ pos (inside_below d r vs)) f.counted,
          );
        },
      )

  -- Every other index is refused: a negative one, and one from the free count on. With the theorem
  -- above, `free_token_count` is exactly the number of indices that `jth_free_token` accepts.
  pub jth_free_token_refused :
      (blocked : List ℤ) (j : ℤ)
      → (j <ℤ pos 0) ⊎ (free_token_count d blocked ≤ℤ j)
      → jth_free_token d blocked j ≡ err value_error
  unfolding jth_free_token
  jth_free_token_refused blocked j h = elim (Bool-cases (ltb_ℤ j (pos 0))) [
    | inl negative ↦ rw negative
    | inr nonneg ↦
        let full : free_token_count d blocked ≤ℤ j = ground arith in
        let vs = set_of blocked in
        let count =
          parts_of_eq (free_token_count d blocked) (size d -ℤ pos (inside d vs))
            (free_token_count-inside blocked) in
        rw nonneg (walk_refused j vs (set_of-IsAscending blocked) (omega (int_laws, count)))
  ]
