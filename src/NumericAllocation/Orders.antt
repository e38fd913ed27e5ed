-- ===== src/NumericAllocation/Orders.antt =====
-- vault/numeric_allocation.py: every order of allocations completes.
use dbf_anonymizer.Prelude.{
  ℕ, suc, ◌≡◌, refl, sym, ◌∙◌, ap, inl, inr, Bool, true, false, not, ◌&&◌, ◌||◌, Bool-cases, List,
  [], ◌∷◌, ◌++◌, length, keep, ℤ, eqb_ℤ, eqb_ℤ_iff, ◌≤ℤ◌, mem, insert, mem-insert, Ascends,
  IsAscending, IsAscending-insert, Ascends-not_mem, set_of-ext, arith,
}
use dbf_anonymizer.Errors.{ok}
use dbf_anonymizer.NumericKeys.{NumericKeyDomain, plan_numeric_bijection}
use dbf_anonymizer.NumericKeys.Free.{mem-keep}
use dbf_anonymizer.NumericKeys.Bijection.{IsNodup, IsAssignment, length-set_of}
use dbf_anonymizer.NumericAllocation.{
  NumericKeyDomainMapping, unallocated_originals, recorded, allocate_all,
}
use dbf_anonymizer.NumericAllocation.Sound.{IsCandidate, select_candidate-IsCandidate}
use dbf_anonymizer.NumericAllocation.Complete.{
  IsBelow, select_candidate-returns, plan-ext, mem-append_one,
}

-- Only the members of the originals matter, when none stands twice.
originals-ext :
    (d : NumericKeyDomain) (os ps xs : List ℤ)
    → IsNodup os
    → IsNodup ps
    → ((a : ℤ) → mem a os ≡ mem a ps)
    → plan_numeric_bijection d os xs ≡ plan_numeric_bijection d ps xs
unfolding plan_numeric_bijection
originals-ext d os ps xs nodup_o nodup_p h =
    let sets = set_of-ext os ps h in
    let lengths : length os ≡ length ps =
      sym (length-set_of os nodup_o) ∙ ap length sets ∙ length-set_of ps nodup_p in
    rw (sets, lengths)

IsAssignment-ext :
    (d : NumericKeyDomain) (xs ys os ts : List ℤ)
    → ((a : ℤ) → mem a xs ≡ mem a ys)
    → IsAssignment d xs os ts
    → IsAssignment d ys os ts
IsAssignment-ext d xs ys [] [] h a = tt
IsAssignment-ext d xs ys [] (t ∷ ts) h a = a
IsAssignment-ext d xs ys (o ∷ os) [] h a = a
IsAssignment-ext d xs ys (o ∷ os) (t ∷ ts) h a = (
  (a.0.0, sym (h t) ∙ a.0.1),
  a.1,
  IsAssignment-ext d (t ∷ xs) (t ∷ ys) os ts (λ b. ap (λ m. eqb_ℤ t b || m) (h b)) a.2,
)

Ascends-IsNodup : (low : ℤ) (s : List ℤ) → Ascends low s → IsNodup s
Ascends-IsNodup low [] up = tt
Ascends-IsNodup low (x ∷ xs) up =
    (Ascends-not_mem x x xs (omega arith) up.1, Ascends-IsNodup x xs up.1)

pub ascending-IsNodup : (s : List ℤ) → IsAscending s → IsNodup s
ascending-IsNodup [] up = tt
ascending-IsNodup (x ∷ xs) up = (Ascends-not_mem x x xs (omega arith) up, Ascends-IsNodup x xs up)

keep-IsNodup : (p : ℤ → Bool) (xs : List ℤ) → IsNodup xs → IsNodup (keep p xs)
keep-IsNodup p [] h = tt
keep-IsNodup p (x ∷ xs) h = elim (Bool-cases (p x)) [
  | inl kept ↦ rw kept (mem-keep p x xs ∙ ground (arith, h.0), keep-IsNodup p xs h.1)
  | inr dropped ↦ rw dropped (keep-IsNodup p xs h.1)
]

-- the state between two allocations: `os` are the originals that still have no row, in the order
-- they will be asked for
pub record IsPlanned (m : NumericKeyDomainMapping) (os : List ℤ) : Type 0 where
  pub ascending : IsAscending m.originals
  pub nodup : IsNodup os
  pub members : (a : ℤ) → mem a os ≡ (mem a m.originals && not (mem a m.persisted_originals))
  pub planned : plan_numeric_bijection m.domain os m.used ≡ ok true

module _ (m : NumericKeyDomainMapping) (o : ℤ) (os : List ℤ) (p : IsPlanned m (o ∷ os)) where
  rest-members : (a : ℤ) → mem a (unallocated_originals m o) ≡ mem a os
  unfolding unallocated_originals
  rest-members a =
      mem-keep (λ x. not (mem x m.persisted_originals) && not (eqb_ℤ x o)) a m.originals
      ∙ elim (Bool-cases (eqb_ℤ o a)) [
        | inl same ↦
            let e : o ≡ a = (eqb_ℤ_iff o a).0 same in
            let out : mem a os ≡ false = ap (λ x. mem x os) (sym e) ∙ p.nodup.0 in
            ground (arith, same, out)
        | inr other ↦ ground (arith, other, p.members a)
      ]

  rest-IsNodup : IsNodup (unallocated_originals m o)
  unfolding unallocated_originals
  rest-IsNodup = keep-IsNodup _ m.originals (ascending-IsNodup m.originals p.ascending)

  rest-planned : plan_numeric_bijection m.domain (o ∷ unallocated_originals m o) m.used ≡ ok true
  rest-planned =
      originals-ext m.domain (o ∷ unallocated_originals m o) (o ∷ os) m.used
        (rest-members o ∙ p.nodup.0, rest-IsNodup) p.nodup
        (λ a. ap (λ x. eqb_ℤ o a || x) (rest-members a))
      ∙ p.planned

  others :
      (a : ℤ)
      → mem a os
        ≡ ((eqb_ℤ o a || mem a m.originals) && not (eqb_ℤ o a || mem a m.persisted_originals))
  others a = elim (Bool-cases (eqb_ℤ o a)) [
    | inl same ↦
        let e : o ≡ a = (eqb_ℤ_iff o a).0 same in
        let out : mem a os ≡ false = ap (λ x. mem x os) (sym e) ∙ p.nodup.0 in
        ground (arith, same, out)
    | inr other ↦ ground (arith, other, p.members a)
  ]

  -- an allocation leaves the rest of the order planned
  recorded-IsPlanned : (c : ℤ) → IsCandidate m o c → IsPlanned (recorded m o c) os
  recorded-IsPlanned c candidate = record {
    ascending = IsAscending-insert o m.originals p.ascending;
    nodup = p.nodup.1;
    members = λ a. rw (mem-insert o a m.originals, mem-insert o a m.persisted_originals) (others a);
    planned =
        plan-ext m.domain os (insert c m.used) (m.used ++ c ∷ [])
          (λ a. mem-insert c a m.used ∙ sym (mem-append_one a c m.used))
        ∙ originals-ext m.domain os (unallocated_originals m o) (m.used ++ c ∷ []) p.nodup.1
            rest-IsNodup (λ a. sym (rest-members a))
        ∙ candidate.residual;
  }

-- Every order completes: for a valid domain and any order of the distinct originals without a row
-- that the feasibility test accepts, the allocations one after the other all return, whatever the
-- draws are, and together they are an assignment of distinct free tokens that maps no original to
-- itself.
pub allocate_all-IsAssignment :
    (draws : ℕ → ℕ → ℤ → ℤ) (turn : ℕ) (m : NumericKeyDomainMapping) (os : List ℤ)
    → m.domain.pseudonym_low ≤ℤ m.domain.pseudonym_high
    → ((n : ℕ) → IsBelow (draws n))
    → IsPlanned m os
    → (ts : List ℤ) × (allocate_all draws turn m os ≡ ok ts) × IsAssignment m.domain m.used os ts
unfolding allocate_all
allocate_all-IsAssignment draws turn m [] valid below p = ([], refl, tt)
allocate_all-IsAssignment draws turn m (o ∷ os) valid below p =
    let nodup : IsNodup (o ∷ unallocated_originals m o) =
      (rest-members m o os p o ∙ p.nodup.0, rest-IsNodup m o os p) in
    let (c, chosen) =
      select_candidate-returns m o (draws turn) valid nodup (rest-planned m o os p) (below turn) in
    let candidate = select_candidate-IsCandidate m o (draws turn) c chosen in
    let (ts, later, assigned) =
      allocate_all-IsAssignment draws (suc turn) (recorded m o c) os valid below
        (recorded-IsPlanned m o os p c candidate) in
    (
      c ∷ ts,
      rw (chosen, later),
      (
        candidate.free,
        candidate.not_original,
        IsAssignment-ext m.domain (insert c m.used) (c ∷ m.used) os ts (λ a. mem-insert c a m.used)
            assigned,
      ),
    )
