-- ===== src/TextAllocation/Selection.antt =====
-- vault/text_allocation.py: what _select_candidate returns under a planned slot of a length class.
use dbf_anonymizer.Prelude.{
  ℕ, zero, suc, ◌^◌, ◌<◌, ◌≡◌, refl, ◌∙◌, sym, ap, inl, inr, true, false, ◌||◌, ||-false,
  false-true, Bool-cases, Option-cases, arith, Option, none, some, some-injective, List, length,
  All, ℤ, pos, negsuc, ◌+ℤ◌, ◌-ℤ◌, ◌<ℤ◌, leb_ℤ, int_laws, mem, Text, IsDistinct, text_eq,
  text_eq→eq,
}
use dbf_anonymizer.Errors.{ok}
use dbf_anonymizer.Text.{token_at, token_index}
use dbf_anonymizer.Text.Space.{geometric}
use dbf_anonymizer.NumericAllocation.Complete.{IsBelow}
use dbf_anonymizer.TextAllocation.{
  has_text, LengthClass, admitted, probe_loop, completed, select_in_class, jth_free_in_class,
  global_text_probe_budget,
}
use dbf_anonymizer.TextAllocation.Walk.{IsWithin, jth_free_in_class-IsFree}
use dbf_anonymizer.TextAllocation.Classes.{InClass, class_token, token_indices-Indexed}

-- A pseudonym that fits its slot: a token of the class that is free and not the original.
pub record IsFresh (alphabet original : Text) (l : ℕ) (blocked : List Text) (t : Text)
    : Type 0 where
  pub in_class : InClass alphabet l t
  pub free : has_text t blocked ≡ false
  pub other : text_eq t original ≡ false

module _ (alphabet original : Text) (l : ℕ) (blocked : List Text) (random_below : ℕ → ℤ → ℤ)
    (distinct : IsDistinct alphabet) (nonempty : 0 < length alphabet)
    (known : All (InClass alphabet l) blocked) (room : length blocked < length alphabet ^ suc l)
    (own : InClass alphabet l original → has_text original blocked ≡ true)
    (drawn : IsBelow random_below) where
  abbrev c : LengthClass
  c = record {
    class_length = suc l;
    class_low = geometric (length alphabet) l;
    class_size = length alphabet ^ suc l;
    blocked = blocked;
  }

  -- what the code asks `token_at` for, whether a probe or the exact completion
  at_index :
      (x : ℤ)
      → IsWithin c.class_low c.class_size x
      → (n : ℕ) × (x ≡ pos n)
        × (t : Text) × (token_at x (pos (suc l)) alphabet ≡ ok t)
        × (token_index t alphabet ≡ ok n)
        × InClass alphabet l t
  at_index (pos n) within =
      let (t, found, indexed, inside) = class_token alphabet l n distinct nonempty within in
      (n, refl, t, found, indexed, inside)
  at_index (negsuc n) within = absurd (omega (arith, within.0))

  admitted-IsFresh :
      (t candidate : Text)
      → InClass alphabet l t
      → admitted original blocked t ≡ some candidate
      → IsFresh alphabet original l blocked candidate
  admitted-IsFresh t candidate inside h =
      elim (Bool-cases (text_eq t original || has_text t blocked)) [
        | inl forbidden ↦ cc
        | inr fine ↦
            let parts = ||-false (text_eq t original) (has_text t blocked) fine in
            let same : t ≡ candidate = some-injective (rw fine at h) in
            rw⁻¹ same (record { in_class = inside; free = parts.1; other = parts.0 })
      ]

  -- Each probe is read, and what the loop finds is fresh.
  probe_loop-IsFresh :
      (budget k : ℕ)
      → (hit : Option Text) × (probe_loop budget k random_below original alphabet c ≡ ok hit)
        × ((candidate : Text)
            → hit ≡ some candidate
            → IsFresh alphabet original l blocked candidate)
  unfolding probe_loop
  probe_loop-IsFresh zero k = (none, refl, λ candidate h. cc)
  probe_loop-IsFresh (suc budget) k =
      let draw = random_below k (pos c.class_size) in
      let below = drawn k (pos c.class_size) (omega (arith, room)) in
      let (_, _, t, found, _, inside) =
        at_index (pos c.class_low +ℤ draw) (omega (int_laws, below.0), omega (int_laws, below.1)) in
      let (hit, later, fresh) = probe_loop-IsFresh budget (suc k) in
      elim (Option-cases (admitted original blocked t)) [
        | inl skipped ↦ (hit, rw (found, skipped) later, fresh)
        | inr (candidate, kept) ↦ (
          some candidate,
          rw (found, kept) refl,
          λ other h. rw⁻¹ (some-injective h) (admitted-IsFresh t candidate inside kept),
        )
      ]

  -- The exact completion finds a token, and it is fresh.
  completion-IsFresh :
      (candidate : Text) × (completed random_below alphabet c
          (pos c.class_size -ℤ pos (length blocked))
          none
        ≡ ok candidate)
      × IsFresh alphabet original l blocked candidate
  completion-IsFresh =
      let free = pos c.class_size -ℤ pos (length blocked) in
      let below = drawn global_text_probe_budget free (omega (int_laws, room)) in
      let j = random_below global_text_probe_budget free in
      let (indices, read, indexed) = token_indices-Indexed alphabet l blocked known in
      let found =
        jth_free_in_class-IsFree c.class_low c.class_size indices j indexed.within below.0
          (rw indexed.counted below.1) in
      let x = jth_free_in_class (pos c.class_low) (pos c.class_size) indices j in
      let (n, at_n, t, token, index, inside) = at_index x found.0 in
      let free_t : has_text t blocked ≡ false = elim (Bool-cases (has_text t blocked)) [
        | inl taken ↦ absurd (
            false-true
              (sym found.1 ∙ ap (λ i. mem i indices) at_n ∙ indexed.covers t n taken index))
        | inr fine ↦ fine
      ] in
      let apart : text_eq t original ≡ false = elim (Bool-cases (text_eq t original)) [
        | inl same ↦
            let e = text_eq→eq t original same in
            absurd (false-true (sym free_t ∙ ap (λ s. has_text s blocked) e ∙ own (rw e at inside)))
        | inr fine ↦ fine
      ] in
      (t, rw (read, token) refl, record { in_class = inside; free = free_t; other = apart })

  pub select_in_class-IsFresh :
      (candidate : Text) × (select_in_class random_below original alphabet c ≡ ok candidate)
      × IsFresh alphabet original l blocked candidate
  select_in_class-IsFresh =
      let some_free : leb_ℤ (pos c.class_size -ℤ pos (length blocked)) (pos 0) ≡ false =
        let less : pos 0 <ℤ pos c.class_size -ℤ pos (length blocked) = omega (int_laws, room) in
        ground (arith, less) in
      let (hit, ran, fresh) = probe_loop-IsFresh global_text_probe_budget 0 in
      elim (Option-cases hit) [
        | inl nothing ↦
            let (t, done, is_fresh) = completion-IsFresh in
            (t, rw (some_free, ran, nothing) done, is_fresh)
        | inr (candidate, kept) ↦ (candidate, rw (some_free, ran, kept) refl, fresh candidate kept)
      ]
