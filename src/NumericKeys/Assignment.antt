-- ===== src/NumericKeys/Assignment.antt =====
-- What `plan_numeric_bijection` of transforms/numeric_keys.py proves: it answers yes exactly when
-- the remaining originals have an assignment, and then one token can be fixed after the other.
use dbf_anonymizer.Prelude.{
  ◌≡◌, refl, ◌≢◌, ◌↔◌, ◌⊎◌, true, not, inl, inr, arith, List, [], ◌∷◌, ◌&&◌, Bool-cases, length, ℤ,
  pos, ◌+ℤ◌, ◌-ℤ◌, eqb_ℤ, eqb_ℤ_iff, ◌≤ℤ◌, int_laws, mem, parts_of_eq,
}
use mathlib.Core.Path.{subst}
use dbf_anonymizer.Errors.{ok}
use dbf_anonymizer.NumericKeys.{
  NumericKeyDomain, contains_pseudonym, free_token_count, plan_numeric_bijection,
}
use dbf_anonymizer.NumericKeys.Free.{
  IsFree, free_token_count-occupy, free_token_count_nonneg, free_token_count_pos,
  jth_free_token-IsJthFree,
}
use dbf_anonymizer.NumericKeys.Bijection.{
  IsNodup, IsAssignment, allowed_count, IsFeasible, plan-IsFeasible,
}

module _ (d : NumericKeyDomain) (valid : d.pseudonym_low ≤ℤ d.pseudonym_high) where
  pub free_after :
      (t : ℤ) (occupied : List ℤ)
      → IsFree d occupied t
      → free_token_count d (t ∷ occupied) ≡ free_token_count d occupied -ℤ pos 1
  free_after t occupied free = omega (
    int_laws,
    parts_of_eq (free_token_count d (t ∷ occupied) +ℤ pos 1) (free_token_count d occupied)
        (free_token_count-occupy d t occupied free),
  )

  -- A value that is free is allowed one token less, its own.
  pub allowed_free :
      (occupied : List ℤ) (o : ℤ)
      → IsFree d occupied o
      → allowed_count d occupied o ≡ free_token_count d occupied -ℤ pos 1
  unfolding allowed_count
  allowed_free occupied o (within, free) =
      let own : (contains_pseudonym d o && not (mem o occupied)) ≡ true = ground arith in rw own

  pub IsFree-cases :
      (occupied : List ℤ) (o : ℤ)
      → IsFree d occupied o
        ⊎ ((allowed_count d occupied o ≡ free_token_count d occupied) × (¬ IsFree d occupied o))
  unfolding allowed_count
  IsFree-cases occupied o = elim (Bool-cases (contains_pseudonym d o && not (mem o occupied))) [
    | inl own ↦ inl (ground arith, ground arith)
    | inr no_own ↦ inr (rw no_own, λ f. ground (arith, f.0, f.1))
  ]

  pub IsFree-ne :
      (occupied : List ℤ) (t o : ℤ) → IsFree d (o ∷ occupied) t → (t ≢ o) × IsFree d occupied t
  IsFree-ne occupied t o (within, free) =
      (λ e. ground (arith, eqb_ℤ_iff o t, e), (within, ground arith))

  pub IsFree-cons :
      (occupied : List ℤ) (t o : ℤ) → t ≢ o → IsFree d occupied t → IsFree d (o ∷ occupied) t
  IsFree-cons occupied t o ne (within, free) = (within, ground (arith, eqb_ℤ_iff o t))

  first-IsFree :
      (occupied : List ℤ) → pos 1 ≤ℤ free_token_count d occupied → (t : ℤ) × IsFree d occupied t
  first-IsFree occupied some_free =
      let (r, _, j) = jth_free_token-IsJthFree d occupied (pos 0) (omega arith) (omega arith) in
      (r, (j.within, j.free))

  pub IsFree-other :
      (occupied : List ℤ) (o : ℤ)
      → pos 1 ≤ℤ allowed_count d occupied o
      → (t : ℤ) × IsFree d occupied t × (t ≢ o)
  IsFree-other occupied o some_allowed = elim (IsFree-cases occupied o) [
    | inl own ↦
        let (t, f) =
          first-IsFree (o ∷ occupied)
            (rw (free_after o occupied own) (rw (allowed_free occupied o own) at some_allowed)) in
        let (ne, f') = IsFree-ne occupied t o f in (t, f', ne)
    | inr (all_of_them, not_own) ↦
        let (t, f) = first-IsFree occupied (rw all_of_them at some_allowed) in
        (t, f, λ e. not_own (rw e at f))
  ]

  -- Two different free tokens leave every original one to choose.
  allowed_of_free :
      (occupied : List ℤ) (t o : ℤ)
      → IsFree d occupied t
      → t ≢ o
      → pos 1 ≤ℤ allowed_count d occupied o
  allowed_of_free occupied t o free ne = elim (IsFree-cases occupied o) [
    | inl own ↦
        let left =
          free_token_count_pos d t (o ∷ occupied) valid (IsFree-cons occupied t o ne free) in
        rw (allowed_free occupied o own) (rw (free_after o occupied own) at left)
    | inr (all_of_them, _) ↦ rw all_of_them (free_token_count_pos d t occupied valid free)
  ]

  IsAssignment-allowed :
      (os ts occupied : List ℤ)
      → IsAssignment d occupied os ts
      → (o : ℤ) → mem o os ≡ true
      → (t : ℤ) × IsFree d occupied t × (t ≢ o)
  IsAssignment-allowed [] ts occupied a o m = cc
  IsAssignment-allowed (x ∷ os) [] occupied a o m = absurd a
  IsAssignment-allowed (x ∷ os) (t ∷ ts) occupied a o m = elim (Bool-cases (eqb_ℤ x o)) [
    | inl same ↦ let e : x ≡ o = (eqb_ℤ_iff x o).0 same in (t, a.0, rw e at a.1)
    | inr other ↦
        let (t', free, ne) = IsAssignment-allowed os ts (t ∷ occupied) a.2 o (ground arith) in
        (t', (IsFree-ne occupied t' t free).1, ne)
  ]

  IsAssignment-enough :
      (os ts occupied : List ℤ)
      → IsAssignment d occupied os ts
      → pos (length os) ≤ℤ free_token_count d occupied
  IsAssignment-enough [] ts occupied a = free_token_count_nonneg d occupied valid
  IsAssignment-enough (x ∷ os) [] occupied a = absurd a
  IsAssignment-enough (x ∷ os) (t ∷ ts) occupied a =
      let rest = IsAssignment-enough os ts (t ∷ occupied) a.2 in
      let rest' : pos (length os) ≤ℤ free_token_count d occupied -ℤ pos 1 =
        rw (free_after t occupied a.0) at rest in
      omega int_laws

  pub IsAssignment-IsFeasible :
      (os ts occupied : List ℤ) → IsAssignment d occupied os ts → IsFeasible d os occupied
  IsAssignment-IsFeasible os ts occupied a = record {
    enough = IsAssignment-enough os ts occupied a;
    allowed = λ o m.
        let (t, free, ne) = IsAssignment-allowed os ts occupied a o m in
        allowed_of_free occupied t o free ne;
  }

  -- Fixing a token leaves the rest feasible if two tokens stay free, or if the rest can do without
  -- the token that is left.
  pub IsFeasible-after :
      (o t : ℤ) (os occupied : List ℤ)
      → IsFeasible d (o ∷ os) occupied
      → IsFree d occupied t
      → ((p : ℤ) → mem p os ≡ true → pos 1 ≤ℤ allowed_count d (t ∷ occupied) p)
      → IsFeasible d os (t ∷ occupied)
  IsFeasible-after o t os occupied f free rest = record {
    enough = rw (free_after t occupied free) (omega (int_laws, f.enough));
    allowed = rest;
  }

  pub allowed_spare :
      (t p : ℤ) (occupied : List ℤ)
      → IsFree d occupied t
      → pos 3 ≤ℤ free_token_count d occupied
      → pos 1 ≤ℤ allowed_count d (t ∷ occupied) p
  allowed_spare t p occupied free spare =
      let after = free_after t occupied free in
      elim (IsFree-cases (t ∷ occupied) p) [
        | inl own ↦ rw (allowed_free (t ∷ occupied) p own) (rw after (omega int_laws))
        | inr (all_of_them, _) ↦ rw all_of_them (rw after (omega int_laws))
      ]

  allowed_used :
      (t : ℤ) (occupied : List ℤ)
      → IsFree d occupied t
      → pos 2 ≤ℤ free_token_count d occupied
      → pos 1 ≤ℤ allowed_count d (t ∷ occupied) t
  allowed_used t occupied free two = elim (IsFree-cases (t ∷ occupied) t) [
    | inl own ↦ absurd ((IsFree-ne occupied t t own).0 refl)
    | inr (all_of_them, _) ↦ rw all_of_them (rw (free_after t occupied free) (omega int_laws))
  ]

  -- The last two originals: the token of the first is chosen so that the other keeps one.
  last_two :
      (o p : ℤ) (occupied : List ℤ)
      → p ≢ o
      → IsFeasible d (o ∷ p ∷ []) occupied
      → (t : ℤ) × IsFree d occupied t × (t ≢ o) × (pos 1 ≤ℤ allowed_count d (t ∷ occupied) p)
  last_two o p occupied apart f =
      let (t, free, ne) = IsFree-other occupied o (f.allowed o (ground arith)) in
      let two : pos 2 ≤ℤ free_token_count d occupied = f.enough in
      elim (IsFree-cases (t ∷ occupied) p) [
        | inl own ↦
            let (_, p_free) = IsFree-ne occupied p t own in
            (p, p_free, apart, allowed_used p occupied p_free two)
        | inr (all_of_them, _) ↦
            (t, free, ne, rw all_of_them (rw (free_after t occupied free) (omega int_laws)))
      ]

  -- A feasible problem has a token for its first original that keeps the rest feasible.
  pub IsFeasible-step :
      (o : ℤ) (os occupied : List ℤ)
      → IsNodup (o ∷ os)
      → IsFeasible d (o ∷ os) occupied
      → (t : ℤ) × IsFree d occupied t × (t ≢ o) × IsFeasible d os (t ∷ occupied)
  IsFeasible-step o [] occupied nodup f =
      let (t, free, ne) = IsFree-other occupied o (f.allowed o (ground arith)) in
      (t, free, ne, IsFeasible-after o t [] occupied f free (λ p m. cc))
  IsFeasible-step o (p ∷ []) occupied nodup f =
      let apart : p ≢ o = λ e. ground (arith, eqb_ℤ_iff p o, e, nodup.0) in
      let (t, free, ne, keeps) = last_two o p occupied apart f in
      (
        t,
        free,
        ne,
        IsFeasible-after o t (p ∷ []) occupied f free (λ q m.
            subst (λ x. pos 1 ≤ℤ allowed_count d (t ∷ occupied) x)
              ((eqb_ℤ_iff p q).0 (ground arith)) keeps),
      )
  IsFeasible-step o (p ∷ q ∷ os) occupied nodup f =
      let (t, free, ne) = IsFree-other occupied o (f.allowed o (ground arith)) in
      (
        t,
        free,
        ne,
        IsFeasible-after o t (p ∷ q ∷ os) occupied f free
            (λ x m. allowed_spare t x occupied free (omega (int_laws, f.enough))),
      )

  IsFeasible-IsAssignment :
      (os occupied : List ℤ)
      → IsNodup os
      → IsFeasible d os occupied
      → (ts : List ℤ) × IsAssignment d occupied os ts
  IsFeasible-IsAssignment [] occupied nodup f = ([], tt)
  IsFeasible-IsAssignment (o ∷ os) occupied nodup f =
      let (t, free, ne, rest) = IsFeasible-step o os occupied nodup f in
      let (ts, a) = IsFeasible-IsAssignment os (t ∷ occupied) nodup.1 rest in
      (t ∷ ts, (free, ne, a))

  -- For distinct originals `plan_numeric_bijection` answers yes exactly if every one of them can be
  -- given its own token of the domain: not occupied, given to no other original, and not its own
  -- value.
  pub plan_numeric_bijection-iff_IsAssignment :
      (originals occupied : List ℤ)
      → IsNodup originals
      → (plan_numeric_bijection d originals occupied ≡ ok true)
        ↔ ((ts : List ℤ) × IsAssignment d occupied originals ts)
  plan_numeric_bijection-iff_IsAssignment originals occupied nodup = (
    λ h.
        IsFeasible-IsAssignment originals occupied nodup
          ((plan-IsFeasible d originals occupied nodup).0 h),
    λ a.
        (plan-IsFeasible d originals occupied nodup).1
          (IsAssignment-IsFeasible originals a.0 occupied a.1),
  )
