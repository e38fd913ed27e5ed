-- ===== src/NumericKeys/Bijection.antt =====
-- `plan_numeric_bijection` of transforms/numeric_keys.py against assignments of free tokens.
use dbf_anonymizer.Prelude.{
  suc, ◌≡◌, refl, ◌≢◌, ◌↔◌, true, false, not, inl, inr, arith, ◌∙◌, sym, ap, List, [], ◌∷◌, ◌&&◌,
  ◌==◌, if◌then◌else◌, Bool-cases, length, ℤ, pos, ◌-ℤ◌, ltb_ℤ, eqb_ℤ, eqb_ℤ_iff, ◌≤ℤ◌, mem, set_of,
  set_of-cons, length-insert, mem-set_of, set_of-IsAscending, ltb_ℤ→le, le→ltb_ℤ,
}
use dbf_anonymizer.Errors.{ok, ok-injective}
use dbf_anonymizer.NumericKeys.{
  NumericKeyDomain, contains_pseudonym, blocked_in, free_token_count, every_original_allowed,
  plan_numeric_bijection,
}
use dbf_anonymizer.NumericKeys.Free.{mem-blocked_in, IsFree}

-- no original stands twice
abbrev pub IsNodup : List ℤ → Type 0
IsNodup [] = Unit
IsNodup (x ∷ xs) = (mem x xs ≡ false) × IsNodup xs

pub length-set_of : (xs : List ℤ) → IsNodup xs → length (set_of xs) ≡ length xs
unfolding set_of
length-set_of [] h = refl
length-set_of (x ∷ xs) h =
    let new : mem x (set_of xs) ≡ false = mem-set_of x xs ∙ h.0 in
    rw (set_of-cons x xs)
      (length-insert x (set_of xs) (set_of-IsAscending xs) ∙ rw new (ap suc (length-set_of xs h.1)))

module _ (d : NumericKeyDomain) where
  -- A way to give each original its own free token, other than itself, one after the other.
  abbrev pub IsAssignment : List ℤ → List ℤ → List ℤ → Type 0
  IsAssignment occupied [] [] = Unit
  IsAssignment occupied (o ∷ os) (t ∷ ts) =
      IsFree d occupied t × (t ≢ o) × IsAssignment (t ∷ occupied) os ts
  IsAssignment occupied _ _ = ⊥

  -- the tokens that one original may receive
  unfoldable pub allowed_count : List ℤ → ℤ → ℤ
  allowed_count occupied o =
      if contains_pseudonym d o && not (mem o occupied)
      then free_token_count d occupied -ℤ pos 1
      else free_token_count d occupied

  pub record IsFeasible (originals occupied : List ℤ) : Type 0 where
    pub enough : pos (length originals) ≤ℤ free_token_count d occupied
    pub allowed : (o : ℤ) → mem o originals ≡ true → pos 1 ≤ℤ allowed_count occupied o

  -- `allowed` as the loop computes it
  abbrev loop_count : List ℤ → ℤ → ℤ
  loop_count occupied o =
      if contains_pseudonym d o && not (mem o (blocked_in d occupied))
      then free_token_count d occupied -ℤ pos 1
      else free_token_count d occupied

  loop_count-eq : (occupied : List ℤ) (o : ℤ) → loop_count occupied o ≡ allowed_count occupied o
  unfolding allowed_count
  loop_count-eq occupied o = ground (arith, mem-blocked_in d o occupied)

  every-allowed :
      (occupied vs : List ℤ)
      → every_original_allowed d (blocked_in d occupied) (free_token_count d occupied) vs ≡ true
      → (o : ℤ) → mem o vs ≡ true
      → pos 1 ≤ℤ allowed_count occupied o
  unfolding every_original_allowed
  every-allowed occupied [] h o m = cc
  every-allowed occupied (v ∷ vs) h o m =
      elim (Bool-cases (ltb_ℤ (loop_count occupied v) (pos 1))) [
        | inl few ↦ let stop : false ≡ true = rw few at h in cc
        | inr enough ↦ elim (Bool-cases (eqb_ℤ v o)) [
          | inl same ↦
              let e : v ≡ o = (eqb_ℤ_iff v o).0 same in
              let le : pos 1 ≤ℤ loop_count occupied v =
                ltb_ℤ→le (loop_count occupied v) (pos 1) enough in
              let le' : pos 1 ≤ℤ allowed_count occupied v = rw loop_count-eq at le in rw e at le'
          | inr other ↦ every-allowed occupied vs (rw enough at h) o (ground arith)
        ]
      ]

  allowed-every :
      (occupied vs : List ℤ)
      → ((o : ℤ) → mem o vs ≡ true → pos 1 ≤ℤ allowed_count occupied o)
      → every_original_allowed d (blocked_in d occupied) (free_token_count d occupied) vs ≡ true
  unfolding every_original_allowed
  allowed-every occupied [] h = refl
  allowed-every occupied (v ∷ vs) h =
      let le : pos 1 ≤ℤ loop_count occupied v = rw loop_count-eq (h v (ground arith)) in
      let enough : ltb_ℤ (loop_count occupied v) (pos 1) ≡ false =
        le→ltb_ℤ (loop_count occupied v) (pos 1) le in
      rw enough (allowed-every occupied vs (λ o m. h o (ground arith)))

  plan-parts :
      (originals occupied : List ℤ)
      → IsNodup originals
      → plan_numeric_bijection d originals occupied ≡ ok true
      → (pos (length originals) ≤ℤ free_token_count d occupied)
        × (every_original_allowed d
              (blocked_in d occupied)
              (free_token_count d occupied)
              (set_of originals)
            ≡ true)
  unfolding plan_numeric_bijection free_token_count
  plan-parts originals occupied nodup h =
      let len = length-set_of originals nodup in
      let same : (length (set_of originals) == length originals) ≡ true = ground (arith, len) in
      elim (Bool-cases (ltb_ℤ (free_token_count d occupied) (pos (length (set_of originals))))) [
        | inl short ↦ let stop : ok false ≡ ok true = rw (same, short) at h in cc
        | inr room ↦ (
          omega (
            arith,
            len,
            ltb_ℤ→le (free_token_count d occupied) (pos (length (set_of originals))) room,
          ),
          ok-injective (rw (same, room) at h),
        )
      ]

  pub plan-IsFeasible :
      (originals occupied : List ℤ)
      → IsNodup originals
      → (plan_numeric_bijection d originals occupied ≡ ok true) ↔ IsFeasible originals occupied
  unfolding plan_numeric_bijection free_token_count
  plan-IsFeasible originals occupied nodup = (
    λ h.
        let (e, a) = plan-parts originals occupied nodup h in
        record {
          enough = e;
          allowed =
              λ o m. every-allowed occupied (set_of originals) a o (mem-set_of o originals ∙ m);
        },
    λ f.
        let same : (length (set_of originals) == length originals) ≡ true =
          ground (arith, length-set_of originals nodup) in
        let room : ltb_ℤ (free_token_count d occupied) (pos (length (set_of originals))) ≡ false =
          le→ltb_ℤ (free_token_count d occupied) (pos (length (set_of originals)))
            (omega (arith, f.enough, length-set_of originals nodup)) in
        rw (same, room)
          (ap ok (
            allowed-every occupied (set_of originals)
              (λ o m. f.allowed o (sym (mem-set_of o originals) ∙ m)))),
  )
