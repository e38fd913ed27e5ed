-- ===== src/NumericAllocation/Complete.antt =====
-- vault/numeric_allocation.py: the selection finds a candidate whenever the problem is feasible.
use mathlib.Core.Path.{subst}
use dbf_anonymizer.Prelude.{
  none-some, ℕ, zero, suc, ◌+◌, ◌<◌, ◌≤◌, ◌≡◌, ◌≢◌, refl, sym, ◌∙◌, ap, inl, inr, Bool, true, false,
  Bool-cases, Option-cases, Option, none, some, List, [], ◌∷◌, ◌++◌, if◌then◌else◌, length, keep, ℤ,
  pos, ltb_ℤ, le→ltb_ℤ, parts_of_eq, eqb_ℤ, eqb_ℤ_iff, ◌≤ℤ◌, ◌<ℤ◌, ◌-ℤ◌, int_laws, mem, mem-insert,
  set_of, set_of-ext, set_of-keep, arith, ◌==◌,
}
use dbf_anonymizer.Errors.{Result, ok, ok-injective}
use dbf_anonymizer.NumericKeys.{
  NumericKeyDomain, contains_pseudonym, size, blocked_in, free_token_count, jth_free_token,
  plan_numeric_bijection, every_original_allowed,
}
use dbf_anonymizer.NumericKeys.Free.{
  IsFree, IsJthFree, jth_free_token-IsJthFree, free_token_count_pos,
}
use dbf_anonymizer.NumericKeys.Bijection.{IsNodup, IsFeasible, plan-IsFeasible, length-set_of}
use dbf_anonymizer.NumericKeys.Assignment.{
  free_after, IsFree-cons, IsFeasible-after, IsFeasible-step, allowed_spare,
}
use dbf_anonymizer.NumericAllocation.Sound.{unblocked}
use dbf_anonymizer.NumericAllocation.{
  NumericKeyDomainMapping, unallocated_originals, residual_feasible, blocked_selection, tried,
  first_hit, probe_loop, walk_loop, walk_limit, completed, select_candidate,
  numeric_key_probe_budget,
}

-- Only the members of the occupied tokens matter.
blocked_in-ext :
    (d : NumericKeyDomain) (xs ys : List ℤ)
    → ((a : ℤ) → mem a xs ≡ mem a ys)
    → blocked_in d xs ≡ blocked_in d ys
blocked_in-ext d xs ys h =
    set_of-keep (contains_pseudonym d) xs
    ∙ ap (keep (contains_pseudonym d)) (set_of-ext xs ys h)
    ∙ sym (set_of-keep (contains_pseudonym d) ys)

pub plan-ext :
    (d : NumericKeyDomain) (os xs ys : List ℤ)
    → ((a : ℤ) → mem a xs ≡ mem a ys)
    → plan_numeric_bijection d os xs ≡ plan_numeric_bijection d os ys
unfolding plan_numeric_bijection
plan-ext d os xs ys h = rw (blocked_in-ext d xs ys h)

pub mem-append_one : (a c : ℤ) (xs : List ℤ) → mem a (xs ++ c ∷ []) ≡ mem a (c ∷ xs)
mem-append_one a c [] = refl
mem-append_one a c (x ∷ xs) = ground (arith, mem-append_one a c xs)

-- For distinct originals the test never raises.
plan_returns :
    (d : NumericKeyDomain) (os xs : List ℤ)
    → IsNodup os
    → (b : Bool) × (plan_numeric_bijection d os xs ≡ ok b)
unfolding plan_numeric_bijection
plan_returns d os xs nodup =
    let same : (length (set_of os) == length os) ≡ true = ground (arith, length-set_of os nodup) in
    elim (Bool-cases
      (ltb_ℤ (size d -ℤ pos (length (blocked_in d xs))) (pos (length (set_of os))))) [
        | inl short ↦ (false, rw (same, short))
        | inr room ↦ (
          every_original_allowed d (blocked_in d xs) (size d -ℤ pos (length (blocked_in d xs)))
              (set_of os),
          rw (same, room),
        )
      ]

zero_one : pos 0 ≢ pos 1
zero_one h = let p = parts_of_eq (pos 0) (pos 1) h in omega arith

ne_of : (a b : ℤ) → eqb_ℤ b a ≡ false → a ≢ b
ne_of a b h e = ground (arith, h, e, eqb_ℤ_iff b a)

module _ (m : NumericKeyDomainMapping) (valid : m.domain.pseudonym_low ≤ℤ m.domain.pseudonym_high)
    (original : ℤ) where
  abbrev blocked : List ℤ
  blocked = blocked_selection m original

  abbrev rest : List ℤ
  rest = unallocated_originals m original

  -- free and not the original
  selectable : (t : ℤ) → IsFree m.domain m.used t → t ≢ original → IsFree m.domain blocked t
  selectable t (within, free) ne = elim (Bool-cases (contains_pseudonym m.domain original)) [
    | inl inside ↦ (
      within,
      rw inside (mem-insert original t m.used ∙ ground (arith, eqb_ℤ_iff original t, ne, free)),
    )
    | inr outside ↦ (within, rw outside free)
  ]

  -- a candidate that keeps the rest feasible is accepted
  tried-accepts :
      (j : ℕ) (c : ℤ)
      → jth_free_token m.domain blocked (pos j) ≡ ok c
      → IsNodup rest
      → IsFeasible m.domain rest (c ∷ m.used)
      → tried m original (pos j) ≡ ok (some c)
  unfolding residual_feasible
  tried-accepts j c there nodup feasible =
      let accepted : plan_numeric_bijection m.domain rest (m.used ++ c ∷ []) ≡ ok true =
        plan-ext m.domain rest (m.used ++ c ∷ []) (c ∷ m.used) (λ a. mem-append_one a c m.used)
        ∙ (plan-IsFeasible m.domain rest (c ∷ m.used) nodup).1 feasible in
      rw (there, accepted)

  tried-returns :
      (j c : ℤ)
      → jth_free_token m.domain blocked j ≡ ok c
      → IsNodup rest
      → (hit : Option ℤ) × (tried m original j ≡ ok hit)
  unfolding residual_feasible
  tried-returns j c there nodup =
      let b = plan_returns m.domain rest (m.used ++ c ∷ []) nodup in
      (if b.0 then some c else none, rw (there, b.1))

  abbrev free_selection : ℤ
  free_selection = free_token_count m.domain blocked

  token :
      (j : ℕ)
      → pos j <ℤ free_selection
      → (c : ℤ) × (jth_free_token m.domain blocked (pos j) ≡ ok c)
        × IsJthFree m.domain blocked (pos j) c
  token j small = jth_free_token-IsJthFree m.domain blocked (pos j) (omega arith) small

  -- different ranks, different tokens
  apart_by_rank :
      (i j c : ℤ) → IsJthFree m.domain blocked i c → IsJthFree m.domain blocked j c → i ≡ j
  apart_by_rank i j c a b = sym a.rank ∙ b.rank

  unblock : (t : ℤ) → IsFree m.domain blocked t → IsFree m.domain m.used t
  unblock t f = (unblocked m original t f).0

  three_free :
      (a b t : ℤ)
      → IsFree m.domain m.used a
      → IsFree m.domain m.used b
      → IsFree m.domain m.used t
      → b ≢ a
      → t ≢ a
      → t ≢ b
      → pos 3 ≤ℤ free_token_count m.domain m.used
  three_free a b t free_a free_b free_t b_a t_a t_b =
      let b2 = IsFree-cons m.domain valid m.used b a b_a free_b in
      let t2 =
        IsFree-cons m.domain valid (a ∷ m.used) t b t_b
          (IsFree-cons m.domain valid m.used t a t_a free_t) in
      let left = free_token_count_pos m.domain t (b ∷ a ∷ m.used) valid t2 in
      let p =
        parts_of_eq (free_token_count m.domain (b ∷ a ∷ m.used))
          (free_token_count m.domain (a ∷ m.used) -ℤ pos 1)
          (free_after m.domain valid b (a ∷ m.used) b2) in
      let q =
        parts_of_eq (free_token_count m.domain (a ∷ m.used))
          (free_token_count m.domain m.used -ℤ pos 1) (free_after m.domain valid a m.used free_a) in
      omega (int_laws, left, p, q)

  -- the index, 0 or 1, of a candidate that is accepted
  abbrev Accepted : Type 0
  Accepted =
      (j : ℕ) × (j < 2)
      × (pos j <ℤ free_selection)
      × ((c : ℤ) × (tried m original (pos j) ≡ ok (some c)))

  module _ (nodup : IsNodup (original ∷ rest))
      (feasible : IsFeasible m.domain (original ∷ rest) m.used) where
    -- with three free tokens the first candidate is accepted
    spare-Accepted :
        (c : ℤ)
        → pos 0 <ℤ free_selection
        → jth_free_token m.domain blocked (pos 0) ≡ ok c
        → IsFree m.domain m.used c
        → pos 3 ≤ℤ free_token_count m.domain m.used
        → Accepted
    spare-Accepted c small there free spare =
        let keeps : IsFeasible m.domain rest (c ∷ m.used) =
          IsFeasible-after m.domain valid original c rest m.used feasible free
            (λ p is_rest. allowed_spare m.domain valid c p m.used free spare) in
        (0, omega arith, small, (c, tried-accepts 0 c there nodup.1 keeps))

    accepted_index : Accepted
    accepted_index =
        let (t, t_free, ne, keeps) =
          IsFeasible-step m.domain valid original rest m.used nodup feasible in
        let t_sel = selectable t t_free ne in
        let one = free_token_count_pos m.domain t blocked valid t_sel in
        let (c0, there0, is0) = token 0 (omega (arith, one)) in
        elim (Bool-cases (eqb_ℤ c0 t)) [
          | inl same ↦ (
            0,
            omega arith,
            omega (arith, one),
            (t, tried-accepts 0 t (there0 ∙ ap ok ((eqb_ℤ_iff c0 t).0 same)) nodup.1 keeps),
          )
          | inr apart0 ↦
              let free0 : IsFree m.domain blocked c0 = (is0.within, is0.free) in
              let t1 : IsFree m.domain (c0 ∷ blocked) t =
                IsFree-cons m.domain valid blocked t c0 (ne_of t c0 apart0) t_sel in
              let after0 = free_after m.domain valid c0 blocked free0 in
              let left = free_token_count_pos m.domain t (c0 ∷ blocked) valid t1 in
              let two : pos 1 <ℤ free_selection = omega (
                int_laws,
                parts_of_eq (free_token_count m.domain (c0 ∷ blocked)) (free_selection -ℤ pos 1)
                    after0,
                left,
              ) in
              let (c1, there1, is1) = token 1 two in
              elim (Bool-cases (eqb_ℤ c1 t)) [
                | inl same ↦ (
                  1,
                  omega arith,
                  two,
                  (t, tried-accepts 1 t (there1 ∙ ap ok ((eqb_ℤ_iff c1 t).0 same)) nodup.1 keeps),
                )
                | inr apart1 ↦
                    let u0 = unblock c0 free0 in
                    let u1 = unblock c1 (is1.within, is1.free) in
                    let c1_c0 : c1 ≢ c0 = λ e. zero_one (
                      apart_by_rank (pos 0) (pos 1) c1
                        (subst (IsJthFree m.domain blocked (pos 0)) (sym e) is0) is1) in
                    spare-Accepted c0 (omega (arith, one)) there0 u0 (
                      three_free c0 c1 t u0 u1 t_free c1_c0 (ne_of t c0 apart0) (ne_of t c1 apart1))
              ]
        ]

    -- the loops: every round returns, and the walk reaches the accepted index
    first_hit-returns :
        (later : Result (Option ℤ)) (hit : Option ℤ)
        → (o : Option ℤ) × (later ≡ ok o)
        → (o : Option ℤ) × (first_hit later hit ≡ ok o)
    first_hit-returns later none rest_returns = rest_returns
    first_hit-returns later (some v) rest_returns = (some v, refl)

    probe_loop-returns :
        (budget k : ℕ) (random_below : ℕ → ℤ → ℤ)
        → ((i : ℕ)
            → (pos 0 ≤ℤ random_below i free_selection)
              × (random_below i free_selection <ℤ free_selection))
        → (o : Option ℤ) × (probe_loop budget k random_below m original free_selection ≡ ok o)
    unfolding probe_loop
    probe_loop-returns zero k random_below drawn = (none, refl)
    probe_loop-returns (suc budget) k random_below drawn =
        let j = random_below k free_selection in
        let (c, there, _) = jth_free_token-IsJthFree m.domain blocked j (drawn k).0 (drawn k).1 in
        let (hit, was) = tried-returns j c there nodup.1 in
        let later = probe_loop budget (suc k) random_below m original free_selection in
        let (o, returned) =
          first_hit-returns later hit (probe_loop-returns budget (suc k) random_below drawn) in
        (o, rw was returned)

    walk_loop-finds :
        (left index j : ℕ) (c : ℤ)
        → index ≤ j
        → j < index + left
        → pos j <ℤ free_selection
        → tried m original (pos j) ≡ ok (some c)
        → (v : ℤ) × (walk_loop left index m original ≡ ok (some v))
    unfolding walk_loop
    walk_loop-finds zero index j c low high small hit = absurd (omega arith)
    walk_loop-finds (suc left) index j c low high small hit =
        let (v, there, _) = token index (omega arith) in
        let (h, was) = tried-returns (pos index) v there nodup.1 in
        elim (Option-cases h) [
          | inr (w, is_w) ↦ (w, rw (was, is_w))
          | inl is_none ↦
              let further : index ≢ j = λ e. none-some (
                ok-injective
                  (sym (was ∙ ap ok is_none) ∙ ap (λ i. tried m original (pos i)) e ∙ hit)) in
              let (w, found_w) =
                walk_loop-finds left (suc index) j c (omega (arith, further)) (omega arith) small
                  hit in
              (w, rw (was, is_none) found_w)
        ]

    completed-returns : (o : Option ℤ) → (c : ℤ) × (completed m original free_selection o ≡ ok c)
    completed-returns (some v) = (v, refl)
    completed-returns none =
        let (j, bound, small, (c, hit)) = accepted_index in
        let (v, found_v) =
          walk_loop-finds (walk_limit m free_selection) 0 j c (omega arith) (omega arith) small
            hit in
        (v, rw found_v)

-- the contract of `secrets.randbelow`
abbrev pub IsBelow : (ℕ → ℤ → ℤ) → Type 0
IsBelow random_below =
    (k : ℕ) (n : ℤ) → pos 1 ≤ℤ n → (pos 0 ≤ℤ random_below k n) × (random_below k n <ℤ n)

-- The selection is complete: if the originals without a row, this one first, can still be given
-- tokens, it returns a candidate for every sequence of draws that keeps the contract of `randbelow`.
-- It never reports exhaustion because of earlier random choices.
pub select_candidate-returns :
    (m : NumericKeyDomainMapping) (original : ℤ) (random_below : ℕ → ℤ → ℤ)
    → m.domain.pseudonym_low ≤ℤ m.domain.pseudonym_high
    → IsNodup (original ∷ unallocated_originals m original)
    → plan_numeric_bijection m.domain (original ∷ unallocated_originals m original) m.used ≡ ok true
    → IsBelow random_below
    → (c : ℤ) × (select_candidate random_below m original ≡ ok c)
unfolding select_candidate
select_candidate-returns m original random_below valid nodup planned drawn =
    let feasible =
      (plan-IsFeasible m.domain (original ∷ unallocated_originals m original) m.used nodup).0
        planned in
    let fs = free_token_count m.domain (blocked_selection m original) in
    let (j, _, small, _) = accepted_index m valid original nodup feasible in
    let some_free : ltb_ℤ fs (pos 1) ≡ false = le→ltb_ℤ fs (pos 1) (omega (arith, small)) in
    let (o, probed) =
      probe_loop-returns m valid original nodup feasible numeric_key_probe_budget 0 random_below
        (λ i. drawn i fs (omega (arith, small))) in
    let (c, done) = completed-returns m valid original nodup feasible o in
    (c, rw (some_free, probed) done)
