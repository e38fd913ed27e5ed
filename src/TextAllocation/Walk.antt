-- ===== src/TextAllocation/Walk.antt =====
-- vault/text_allocation.py: _jth_free_in_class finds a free index of its length class.
use dbf_anonymizer.Prelude.{
  ℕ, ◌+◌, ◌≤◌, ◌≡◌, refl, ◌∙◌, sym, inl, inr, Bool, true, false, ◌||◌, Bool-cases, arith, List, [],
  ◌∷◌, length, keep, ℤ, pos, ◌+ℤ◌, ◌-ℤ◌, ltb_ℤ, ◌≤ℤ◌, ◌<ℤ◌, int_laws, mem, mem-set_of, set_of,
  set_of-IsAscending, length-insert, eqb_ℤ_iff, le→ltb_ℤ,
}
use dbf_anonymizer.Errors.{ok, ok-injective}
use dbf_anonymizer.NumericKeys.{
  NumericKeyDomain, contains_pseudonym, free_token_count, jth_free_token, gap_walk,
}
use dbf_anonymizer.NumericKeys.Free.{jth_free_token-IsJthFree}
use dbf_anonymizer.TextAllocation.{class_walk, jth_free_in_class}

-- the indices of one length class, as a domain of numbers
abbrev class_domain : ℕ → ℕ → NumericKeyDomain
class_domain low size = record {
  pseudonym_low = pos low;
  pseudonym_high = pos low +ℤ pos size -ℤ pos 1;
  members = [];
}

abbrev pub IsWithin : ℕ → ℕ → ℤ → Type 0
IsWithin low size x = (pos low ≤ℤ x) × (x <ℤ pos (low + size))

abbrev is_outside : NumericKeyDomain → ℤ → Bool
is_outside d v = ltb_ℤ v d.pseudonym_low || ltb_ℤ d.pseudonym_high v

-- Where no value lies outside of the domain, both walks are one.
class_walk-eq_gap_walk :
    (d : NumericKeyDomain) (previous remaining : ℤ) (vs : List ℤ) (r : ℤ)
    → ((x : ℤ) → mem x vs ≡ true → is_outside d x ≡ false)
    → gap_walk d previous remaining vs ≡ ok r
    → class_walk previous remaining vs ≡ r
unfolding gap_walk class_walk
class_walk-eq_gap_walk d previous remaining [] r within h =
    elim (Bool-cases (ltb_ℤ d.pseudonym_high (previous +ℤ pos 1 +ℤ remaining))) [
      | inl over ↦ cc
      | inr fits ↦ ok-injective (rw fits at h)
    ]
class_walk-eq_gap_walk d previous remaining (v ∷ vs) r within h =
    let inside = within v (ground (arith, (eqb_ℤ_iff v v).1 refl)) in
    let rest : (x : ℤ) → mem x vs ≡ true → is_outside d x ≡ false =
      λ x m. within x (ground (arith, m)) in
    elim (Bool-cases (ltb_ℤ remaining (v -ℤ previous -ℤ pos 1))) [
      | inl here ↦ rw here (ok-injective (rw (inside, here) at h))
      | inr later ↦ rw later (
          class_walk-eq_gap_walk d v (remaining -ℤ (v -ℤ previous -ℤ pos 1)) vs r rest
            (rw (inside, later) at h))
    ]

length-set_of : (xs : List ℤ) → length (set_of xs) ≤ length xs
unfolding set_of
length-set_of [] = omega arith
length-set_of (x ∷ xs) =
    ground (arith, length-insert x (set_of xs) (set_of-IsAscending xs), length-set_of xs)

length-keep : (p : ℤ → Bool) (xs : List ℤ) → length (keep p xs) ≤ length xs
length-keep p [] = omega arith
length-keep p (x ∷ xs) = ground (arith, length-keep p xs)

few-taken :
    (low size : ℕ) (blocked : List ℤ)
    → pos size -ℤ pos (length blocked) ≤ℤ free_token_count (class_domain low size) blocked
unfolding free_token_count
few-taken low size blocked = omega (
  int_laws,
  length-set_of (keep (contains_pseudonym (class_domain low size)) blocked),
  length-keep (contains_pseudonym (class_domain low size)) blocked,
)

pub jth_free_in_class-IsFree :
    (low size : ℕ) (blocked : List ℤ) (j : ℤ)
    → ((x : ℤ) → mem x blocked ≡ true → IsWithin low size x)
    → pos 0 ≤ℤ j
    → j <ℤ pos size -ℤ pos (length blocked)
    → IsWithin low size (jth_free_in_class (pos low) (pos size) blocked j)
      × (mem (jth_free_in_class (pos low) (pos size) blocked j) blocked ≡ false)
unfolding jth_free_in_class jth_free_token
jth_free_in_class-IsFree low size blocked j within nonneg small =
    let d = class_domain low size in
    let (r, found, free) =
      jth_free_token-IsJthFree d blocked j nonneg (omega (int_laws, few-taken low size blocked)) in
    let valid : ltb_ℤ j (pos 0) ≡ false = ground arith in
    let walked : gap_walk d (pos low -ℤ pos 1) j (set_of blocked) ≡ ok r = rw valid at found in
    let inside : (x : ℤ) → mem x (set_of blocked) ≡ true → is_outside d x ≡ false = λ x m.
      let w = within x (sym (mem-set_of x blocked) ∙ m) in
      let high : x ≤ℤ d.pseudonym_high = omega (int_laws, w.1) in
      let above : ltb_ℤ x d.pseudonym_low ≡ false = le→ltb_ℤ x d.pseudonym_low w.0 in
      let below : ltb_ℤ d.pseudonym_high x ≡ false = le→ltb_ℤ d.pseudonym_high x high in
      ground (arith, above, below) in
    let same = class_walk-eq_gap_walk d (pos low -ℤ pos 1) j (set_of blocked) r inside walked in
    let in_domain = free.within in
    let low_end : pos low ≤ℤ r = ground arith in
    let high_end : r ≤ℤ d.pseudonym_high = ground arith in
    rw same ((low_end, omega (int_laws, high_end)), free.free)
