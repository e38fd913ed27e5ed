-- ===== src/TextAllocation/Classes.antt =====
-- vault/text_allocation.py: the length classes of the token space and the indices of their tokens.
use dbf_anonymizer.Prelude.{
  ℕ, suc, ◌-◌, ◌^◌, ◌≤◌, ◌<◌, ◌≡◌, refl, ◌∙◌, sym, ap, inl, inr, true, Bool-cases, arith, List, [],
  ◌∷◌, length, All, ℤ, pos, eqb_ℤ, eqb_ℤ_iff, mem, Text, IsDistinct, text_eq, text_eq→eq,
}
use dbf_anonymizer.Errors.{ok, ok-injective}
use dbf_anonymizer.Text.{token_at, token_index, is_safe_token}
use dbf_anonymizer.Text.Space.{geometric, geometric-last}
use dbf_anonymizer.Text.Tokens.{
  place, is_safe_token_iff, token_index-place, place-bounds, geometric_mono, token_index-token_at,
}
use dbf_anonymizer.TextAllocation.{has_text, token_indices}
use dbf_anonymizer.TextAllocation.Walk.{IsWithin}
use native.Mathlib.Decide.{dec_le}

module _ (alphabet : Text) (l : ℕ) where
  abbrev b : ℕ
  b = length alphabet

  -- a token of the class of length `suc l`
  abbrev pub InClass : Text → Type 0
  InClass t = (is_safe_token t alphabet ≡ true) × (length t ≡ suc l)

  pub class_index :
      (t : Text)
      → InClass t
      → (i : ℕ) × (token_index t alphabet ≡ ok i) × IsWithin (geometric b l) (b ^ suc l) (pos i)
  class_index t (safe, len) =
      let bounds = place-bounds alphabet t l len ((is_safe_token_iff t alphabet).0 safe).1 in
      (
        place alphabet t,
        token_index-place alphabet t safe,
        (omega (arith, bounds.0), omega (arith, bounds.1, geometric-last b l)),
      )

  -- Every index of the class is that of one of its tokens.
  pub class_token :
      (n : ℕ)
      → IsDistinct alphabet
      → 0 < length alphabet
      → IsWithin (geometric b l) (b ^ suc l) (pos n)
      → (t : Text) × (token_at (pos n) (pos (suc l)) alphabet ≡ ok t)
        × (token_index t alphabet ≡ ok n)
        × InClass t
  class_token n distinct nonempty within =
      let (t, found, indexed, safe, short) =
        token_index-token_at alphabet (suc l) n distinct nonempty
          (omega (arith, within.1, geometric-last b l)) in
      let (long, over) = (is_safe_token_iff t alphabet).0 safe in
      let bounds = place-bounds alphabet t (length t - 1) (omega arith) over in
      let placed : place alphabet t ≡ n =
        ok-injective (sym (token_index-place alphabet t safe) ∙ indexed) in
      let full : l ≤ length t - 1 = elim (dec_le l (length t - 1)) [
        | yes h ↦ h
        | no h ↦
            absurd (omega (arith, geometric_mono b (suc (length t - 1)) l (omega arith), within.0))
      ] in
      (t, found, indexed, (safe, omega (arith, full)))

  -- The indices of some tokens of the class.
  pub record Indexed (tokens : List Text) (indices : List ℤ) : Type 0 where
    pub counted : length indices ≡ length tokens
    pub within : (x : ℤ) → mem x indices ≡ true → IsWithin (geometric b l) (b ^ suc l) x
    pub covers :
        (t : Text) (i : ℕ)
        → has_text t tokens ≡ true
        → token_index t alphabet ≡ ok i
        → mem (pos i) indices ≡ true

  pub token_indices-Indexed :
      (tokens : List Text)
      → All InClass tokens
      → (indices : List ℤ) × (token_indices alphabet tokens ≡ ok indices) × Indexed tokens indices
  unfolding token_indices
  token_indices-Indexed [] h =
      ([], refl, record { counted = refl; within = λ x m. cc; covers = λ t i m. cc })
  token_indices-Indexed (token ∷ tokens) h =
      let (i, first, inside) = class_index token h.0 in
      let (indices, later, ih) = token_indices-Indexed tokens h.1 in
      (
        pos i ∷ indices,
        rw (first, later) refl,
        record {
          counted = ap suc ih.counted;
          within = λ x m. elim (Bool-cases (eqb_ℤ (pos i) x)) [
            | inl same ↦ let e = (eqb_ℤ_iff (pos i) x).0 same in rw⁻¹ e inside
            | inr other ↦ ih.within x (ground (arith, m, other))
          ];
          covers = λ t j m k. elim (Bool-cases (text_eq token t)) [
            | inl same ↦
                let e : token ≡ t = text_eq→eq token t same in
                let ij : i ≡ j =
                  ok-injective (sym first ∙ ap (λ s. token_index s alphabet) e ∙ k) in
                rw ij (ground (arith, (eqb_ℤ_iff (pos j) (pos j)).1 refl))
            | inr other ↦
                let rest = ih.covers t j (ground (arith, m, other)) k in ground (arith, rest)
          ];
        },
      )
