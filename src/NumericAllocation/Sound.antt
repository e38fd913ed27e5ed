-- ===== src/NumericAllocation/Sound.antt =====
-- vault/numeric_allocation.py: what a selected candidate is, on every path of the selection.
use mathlib.Core.Path.{subst}
use dbf_anonymizer.Prelude.{
  none-some, some-injective, false-true, ℕ, zero, suc, ◌≡◌, ◌≢◌, sym, ◌∙◌, ap, inl, inr, true,
  false, ◌||◌, Bool-cases, Option, none, some, List, [], ◌∷◌, ◌++◌, if◌then◌else◌, ℤ, pos, ltb_ℤ,
  ltb_ℤ→lt, ltb_ℤ→le, eqb_ℤ, eqb_ℤ_iff, mem, mem-insert, arith,
}
use dbf_anonymizer.Errors.{
  Result, ok, err, value_error, ok-injective, >>=-eq-ok, >>-eq-ok, raise_if,
}
use dbf_anonymizer.NumericKeys.{
  NumericKeyDomain, contains_pseudonym, free_token_count, jth_free_token, plan_numeric_bijection,
}
use dbf_anonymizer.NumericKeys.Free.{IsFree, jth_free_token-IsJthFree, jth_free_token_refused}
use dbf_anonymizer.NumericAllocation.{
  NumericKeyDomainMapping, unallocated_originals, residual_feasible, blocked_selection, tried,
  probe_loop, walk_loop, walk_limit, completed, first_hit, found_or_fail, select_candidate,
  domain_exhausted, numeric_key_probe_budget,
}

refused_ok : {r : ℤ} → err value_error ≢ ok r
refused_ok h = cc

found : (o : Option ℤ) (c : ℤ) → found_or_fail o ≡ ok c → o ≡ some c
found none c h = cc
found (some v) c h = ap some (ok-injective h)

jth_free_token-IsFree :
    (d : NumericKeyDomain) (blocked : List ℤ) (j r : ℤ)
    → jth_free_token d blocked j ≡ ok r
    → IsFree d blocked r
jth_free_token-IsFree d blocked j r h = elim (Bool-cases (ltb_ℤ j (pos 0))) [
  | inl negative ↦ absurd (
      refused_ok {r = r}
        (sym (jth_free_token_refused d blocked j (inl (ltb_ℤ→lt j (pos 0) negative))) ∙ h))
  | inr nonneg ↦ elim (Bool-cases (ltb_ℤ j (free_token_count d blocked))) [
    | inl small ↦
        let found =
          jth_free_token-IsJthFree d blocked j (ltb_ℤ→le j (pos 0) nonneg)
            (ltb_ℤ→lt j (free_token_count d blocked) small) in
        let same : found.0 ≡ r = ok-injective (sym found.1 ∙ h) in
        subst (IsFree d blocked) same (found.2.within, found.2.free)
    | inr large ↦ absurd (
        refused_ok {r = r} (
          sym (
            jth_free_token_refused d blocked j
              (inr (ltb_ℤ→le j (free_token_count d blocked) large)))
          ∙ h))
  ]
]

module _ (m : NumericKeyDomainMapping) (original : ℤ) where
  -- What a candidate must be: a token of the domain that no row uses, not the original itself, and
  -- one that leaves every original without a row its own token.
  pub record IsCandidate (c : ℤ) : Type 0 where
    pub free : IsFree m.domain m.used c
    pub not_original : c ≢ original
    pub residual :
        plan_numeric_bijection m.domain (unallocated_originals m original) (m.used ++ c ∷ [])
        ≡ ok true

  pub unblocked :
      (c : ℤ)
      → IsFree m.domain (blocked_selection m original) c
      → IsFree m.domain m.used c × (c ≢ original)
  unblocked c (within, free) = elim (Bool-cases (contains_pseudonym m.domain original)) [
    | inl inside ↦
        let apart : (eqb_ℤ original c || mem c m.used) ≡ false =
          sym (mem-insert original c m.used) ∙ sym (rw inside) ∙ free in
        ((within, ground (arith, apart)), λ e. ground (arith, apart, eqb_ℤ_iff original c, e))
    | inr outside ↦
        let kept : mem c m.used ≡ false = sym (rw outside) ∙ free in
        (
          (within, kept),
          λ e. false-true (sym outside ∙ ap (contains_pseudonym m.domain) (sym e) ∙ within),
        )
  ]

  tried-IsCandidate : (j c : ℤ) → tried m original j ≡ ok (some c) → IsCandidate c
  unfolding residual_feasible
  tried-IsCandidate j c h =
      let s = >>=-eq-ok (jth_free_token m.domain (blocked_selection m original) j) _ h in
      let t = >>=-eq-ok (residual_feasible m s.0 m.used original) _ s.2 in
      elim (Bool-cases t.0) [
        | inl good ↦
            let same : s.0 ≡ c =
              some-injective
                (ok-injective (ap (λ b. ok (if b then some s.0 else none)) (sym good) ∙ t.2)) in
            let free = jth_free_token-IsFree m.domain (blocked_selection m original) j s.0 s.1 in
            let own = unblocked s.0 free in
            subst IsCandidate same
              (record { free = own.0; not_original = own.1; residual = t.1 ∙ ap ok good })
        | inr bad ↦
            let q : ok none ≡ ok (some c) =
              ap (λ b. ok (if b then some s.0 else none)) (sym bad) ∙ t.2 in
            absurd (none-some {a = c} (ok-injective q))
      ]

  first_hit-IsCandidate :
      (later : Result (Option ℤ)) (hit : Option ℤ) (j c : ℤ)
      → (later ≡ ok (some c) → IsCandidate c)
      → tried m original j ≡ ok hit
      → first_hit later hit ≡ ok (some c)
      → IsCandidate c
  first_hit-IsCandidate later none j c rest was h = rest h
  first_hit-IsCandidate later (some v) j c rest was h = tried-IsCandidate j c (was ∙ h)

  probe_loop-IsCandidate :
      (budget k : ℕ) (random_below : ℕ → ℤ → ℤ) (free_selection c : ℤ)
      → probe_loop budget k random_below m original free_selection ≡ ok (some c)
      → IsCandidate c
  unfolding probe_loop
  probe_loop-IsCandidate zero k random_below free_selection c h =
      absurd (none-some {a = c} (ok-injective h))
  probe_loop-IsCandidate (suc budget) k random_below free_selection c h =
      let j = random_below k free_selection in
      let later = probe_loop budget (suc k) random_below m original free_selection in
      let s = >>=-eq-ok (tried m original j) (first_hit later) h in
      first_hit-IsCandidate later s.0 j c
        (probe_loop-IsCandidate budget (suc k) random_below free_selection c) s.1 s.2

  walk_loop-IsCandidate :
      (left index : ℕ) (c : ℤ) → walk_loop left index m original ≡ ok (some c) → IsCandidate c
  unfolding walk_loop
  walk_loop-IsCandidate zero index c h = absurd (none-some {a = c} (ok-injective h))
  walk_loop-IsCandidate (suc left) index c h =
      let later = walk_loop left (suc index) m original in
      let s = >>=-eq-ok (tried m original (pos index)) (first_hit later) h in
      first_hit-IsCandidate later s.0 (pos index) c (walk_loop-IsCandidate left (suc index) c) s.1
        s.2

  completed-IsCandidate :
      (free_selection : ℤ) (probed : Option ℤ) (c : ℤ)
      → (probed ≡ some c → IsCandidate c)
      → completed m original free_selection probed ≡ ok c
      → IsCandidate c
  completed-IsCandidate free_selection (some v) c was h = was (ap some (ok-injective h))
  completed-IsCandidate free_selection none c was h =
      let s = >>=-eq-ok (walk_loop (walk_limit m free_selection) 0 m original) found_or_fail h in
      walk_loop-IsCandidate (walk_limit m free_selection) 0 c (s.1 ∙ ap ok (found s.0 c s.2))

  -- Whatever the random numbers are and whichever phase of the selection finds it, a selected
  -- pseudonym is a token of the domain that no row uses, is not the original, and leaves a feasible
  -- assignment for every other original that has no row yet.
  pub select_candidate-IsCandidate :
      (random_below : ℕ → ℤ → ℤ) (c : ℤ)
      → select_candidate random_below m original ≡ ok c
      → IsCandidate c
  unfolding select_candidate
  select_candidate-IsCandidate random_below c h =
      let free_selection = free_token_count m.domain (blocked_selection m original) in
      let s = >>-eq-ok (raise_if (ltb_ℤ free_selection (pos 1)) domain_exhausted) _ h in
      let t =
        >>=-eq-ok (probe_loop numeric_key_probe_budget 0 random_below m original free_selection)
          (completed m original free_selection) s.1 in
      completed-IsCandidate free_selection t.0 c
        (λ e.
          probe_loop-IsCandidate numeric_key_probe_budget 0 random_below free_selection c
            (t.1 ∙ ap ok e))
        t.2
