-- ===== src/Prelude/SetExt.antt =====
-- A set of ints is determined by its members.
use mathlib.Core.Path.{◌≡◌, refl, ◌∙◌, ap, sym, subst}
use mathlib.Core.Logic.{inl, inr}
use mathlib.Core.Bool.{true}
use mathlib.Core.List.{List, [], ◌∷◌}
use native.Mathlib.Omega.{arith}
use dbf_anonymizer.Prelude.Tests.{Bool-cases}
use dbf_anonymizer.Prelude.Int.{ℤ, eqb_ℤ, eqb_ℤ_iff, ◌≤ℤ◌, ◌<ℤ◌}
use dbf_anonymizer.Prelude.IntSets.{
  mem, Ascends, IsAscending, Ascends-not_mem, Ascends→IsAscending, set_of, mem-set_of,
  set_of-IsAscending,
}

eqb_refl : (a : ℤ) → eqb_ℤ a a ≡ true
eqb_refl a = (eqb_ℤ_iff a a).1 refl

Ascends-above : (low a : ℤ) (s : List ℤ) → Ascends low s → mem a s ≡ true → low <ℤ a
Ascends-above low a [] up m = cc
Ascends-above low a (x ∷ xs) up m = elim (Bool-cases (eqb_ℤ x a)) [
  | inl same ↦ ground (arith, same)
  | inr other ↦ let above = Ascends-above x a xs up.1 (ground arith) in ground arith
]

-- the heads of two ascending lists with the same members
same_head :
    (x y : ℤ) (xs ys : List ℤ)
    → Ascends x xs
    → Ascends y ys
    → mem x (y ∷ ys) ≡ true
    → mem y (x ∷ xs) ≡ true
    → x ≡ y
same_head x y xs ys up_x up_y m_x m_y = elim (Bool-cases (eqb_ℤ x y)) [
  | inl same ↦ (eqb_ℤ_iff x y).0 same
  | inr other ↦
      let a = Ascends-above y x ys up_y (ground arith) in
      let b = Ascends-above x y xs up_x (ground arith) in absurd (omega arith)
]

same_tail :
    (x : ℤ) (xs ys : List ℤ)
    → Ascends x xs
    → Ascends x ys
    → ((a : ℤ) → mem a (x ∷ xs) ≡ mem a (x ∷ ys))
    → (a : ℤ) → mem a xs ≡ mem a ys
same_tail x xs ys up_x up_y h a = elim (Bool-cases (eqb_ℤ x a)) [
  | inl same ↦
      let le : a ≤ℤ x = ground arith in
      Ascends-not_mem a x xs le up_x ∙ sym (Ascends-not_mem a x ys le up_y)
  | inr other ↦ ground (arith, h a, other)
]

ascending-ext :
    (s t : List ℤ) → IsAscending s → IsAscending t → ((a : ℤ) → mem a s ≡ mem a t) → s ≡ t
ascending-ext [] [] up_s up_t h = refl
ascending-ext [] (y ∷ ys) up_s up_t h = absurd (ground (arith, h y, eqb_refl y))
ascending-ext (x ∷ xs) [] up_s up_t h = absurd (ground (arith, h x, eqb_refl x))
ascending-ext (x ∷ xs) (y ∷ ys) up_s up_t h =
    let m_x : mem x (y ∷ ys) ≡ true = sym (h x) ∙ ground (arith, eqb_refl x) in
    let m_y : mem y (x ∷ xs) ≡ true = h y ∙ ground (arith, eqb_refl y) in
    let same : x ≡ y = same_head x y xs ys up_s up_t m_x m_y in
    let up : Ascends x ys = subst (λ z. Ascends z ys) (sym same) up_t in
    let members : (a : ℤ) → mem a (x ∷ xs) ≡ mem a (x ∷ ys) =
      λ a. h a ∙ ap (λ z. mem a (z ∷ ys)) (sym same) in
    let tails : xs ≡ ys =
      ascending-ext xs ys (Ascends→IsAscending x xs up_s) (Ascends→IsAscending x ys up)
        (same_tail x xs ys up_s up members) in
    ap (◌∷◌ x) tails ∙ ap (λ z. z ∷ ys) same

pub set_of-ext : (xs ys : List ℤ) → ((a : ℤ) → mem a xs ≡ mem a ys) → set_of xs ≡ set_of ys
set_of-ext xs ys h =
    ascending-ext (set_of xs) (set_of ys) (set_of-IsAscending xs) (set_of-IsAscending ys)
      (λ a. mem-set_of a xs ∙ h a ∙ sym (mem-set_of a ys))

-- A set that is in order already is left alone.
pub set_of-ascending : (s : List ℤ) → IsAscending s → set_of s ≡ s
set_of-ascending s up = ascending-ext (set_of s) s (set_of-IsAscending s) up (λ a. mem-set_of a s)
