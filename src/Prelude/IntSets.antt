-- ===== src/Prelude/IntSets.antt =====
-- A Python `set` of ints, as the ascending list of its members: only `len`, `in`, `add` and
-- `sorted` look at it.
use Prim.Native.Nat.{suc}
use mathlib.Core.Path.{◌≡◌, refl, ◌∙◌, ap, sym}
use mathlib.Core.Logic.{inl, inr}
use mathlib.Core.Bool.{Bool, true, false, ◌||◌}
use mathlib.Core.List.{List, [], ◌∷◌}
use native.Mathlib.Omega.{arith}
use dbf_anonymizer.Prelude.Tests.{Bool-cases, if◌then◌else◌}
use dbf_anonymizer.Prelude.Lists.{length, keep}
use dbf_anonymizer.Prelude.Int.{ℤ, ltb_ℤ, eqb_ℤ, eqb_ℤ_iff, ◌≤ℤ◌, ◌<ℤ◌}

abbrev pub mem : ℤ → List ℤ → Bool
mem a [] = false
mem a (x ∷ xs) = eqb_ℤ x a || mem a xs

-- `s.add(a)`
unfoldable pub insert : ℤ → List ℤ → List ℤ
insert a [] = a ∷ []
insert a (x ∷ xs) =
    if ltb_ℤ a x then a ∷ x ∷ xs else (if eqb_ℤ x a then x ∷ xs else x ∷ insert a xs)

-- `set(xs)`
unfoldable pub set_of : List ℤ → List ℤ
unfolding insert
set_of [] = []
set_of (x ∷ xs) = insert x (set_of xs)

pub set_of-cons : (x : ℤ) (xs : List ℤ) → set_of (x ∷ xs) ≡ insert x (set_of xs)
unfolding set_of
set_of-cons x xs = refl

-- strictly ascending, from above `low`
abbrev pub Ascends : ℤ → List ℤ → Type 0
Ascends low [] = Unit
Ascends low (x ∷ xs) = (low <ℤ x) × Ascends x xs

abbrev pub IsAscending : List ℤ → Type 0
IsAscending [] = Unit
IsAscending (x ∷ xs) = Ascends x xs

pub mem-insert : (a b : ℤ) (s : List ℤ) → mem b (insert a s) ≡ (eqb_ℤ a b || mem b s)
unfolding insert
mem-insert a b [] = refl
mem-insert a b (x ∷ xs) = elim (Bool-cases (ltb_ℤ a x)) [
  | inl before ↦ rw before
  | inr after ↦ elim (Bool-cases (eqb_ℤ x a)) [
    | inl same ↦ let e : x ≡ a = (eqb_ℤ_iff x a).0 same in rw (after, same) (rw e (ground arith))
    | inr other ↦ rw (after, other) (ground (arith, mem-insert a b xs))
  ]
]

pub mem-set_of : (b : ℤ) (xs : List ℤ) → mem b (set_of xs) ≡ mem b xs
unfolding set_of
mem-set_of b [] = refl
mem-set_of b (x ∷ xs) = mem-insert x b (set_of xs) ∙ ap (λ m. eqb_ℤ x b || m) (mem-set_of b xs)

pub Ascends-insert : (low a : ℤ) (s : List ℤ) → low <ℤ a → Ascends low s → Ascends low (insert a s)
unfolding insert
Ascends-insert low a [] h s = (h, tt)
Ascends-insert low a (x ∷ xs) h s = elim (Bool-cases (ltb_ℤ a x)) [
  | inl before ↦ rw before (h, (ground arith, s.1))
  | inr after ↦ elim (Bool-cases (eqb_ℤ x a)) [
    | inl same ↦ rw (after, same) s
    | inr other ↦ rw (after, other) (s.0, Ascends-insert x a xs (ground arith) s.1)
  ]
]

pub IsAscending-insert : (a : ℤ) (s : List ℤ) → IsAscending s → IsAscending (insert a s)
unfolding insert
IsAscending-insert a [] s = tt
IsAscending-insert a (x ∷ xs) s = elim (Bool-cases (ltb_ℤ a x)) [
  | inl before ↦ rw before (ground arith, s)
  | inr after ↦ elim (Bool-cases (eqb_ℤ x a)) [
    | inl same ↦ rw (after, same) s
    | inr other ↦ rw (after, other) (Ascends-insert x a xs (ground arith) s)
  ]
]

pub set_of-IsAscending : (xs : List ℤ) → IsAscending (set_of xs)
unfolding set_of
set_of-IsAscending [] = tt
set_of-IsAscending (x ∷ xs) = IsAscending-insert x (set_of xs) (set_of-IsAscending xs)

pub Ascends→IsAscending : (low : ℤ) (s : List ℤ) → Ascends low s → IsAscending s
Ascends→IsAscending low [] h = tt
Ascends→IsAscending low (x ∷ xs) h = h.1

pub Ascends-not_mem : (a low : ℤ) (s : List ℤ) → a ≤ℤ low → Ascends low s → mem a s ≡ false
Ascends-not_mem a low [] le h = refl
Ascends-not_mem a low (x ∷ xs) le h = ground (arith, Ascends-not_mem a x xs)

-- A new member is one more; an old one changes nothing.
pub length-insert :
    (a : ℤ) (s : List ℤ)
    → IsAscending s
    → length (insert a s) ≡ (if mem a s then length s else suc (length s))
unfolding insert
length-insert a [] h = refl
length-insert a (x ∷ xs) h = elim (Bool-cases (ltb_ℤ a x)) [
  | inl before ↦
      let le : a ≤ℤ x = ground arith in
      let out = Ascends-not_mem a x xs le h in rw before (ground (arith, out))
  | inr after ↦ elim (Bool-cases (eqb_ℤ x a)) [
    | inl same ↦ rw (after, same)
    | inr other ↦
        rw (after, other) (ground (arith, length-insert a xs (Ascends→IsAscending x xs h)))
  ]
]

-- A member that is already there is not stored again.
pub insert-mem : (a : ℤ) (s : List ℤ) → IsAscending s → mem a s ≡ true → insert a s ≡ s
unfolding insert
insert-mem a [] h m = cc
insert-mem a (x ∷ xs) h m = elim (Bool-cases (ltb_ℤ a x)) [
  | inl before ↦
      let le : a ≤ℤ x = ground arith in
      let out = Ascends-not_mem a x xs le h in absurd (ground (arith, out))
  | inr after ↦ elim (Bool-cases (eqb_ℤ x a)) [
    | inl same ↦ rw (after, same)
    | inr other ↦
        rw (after, other) (ap (◌∷◌ x) (insert-mem a xs (Ascends→IsAscending x xs h) (ground arith)))
  ]
]

pub insert-front : (a : ℤ) (s : List ℤ) → Ascends a s → insert a s ≡ a ∷ s
unfolding insert
insert-front a [] h = refl
insert-front a (x ∷ xs) h = let before : ltb_ℤ a x ≡ true = ground arith in rw before

pub Ascends-weaken : (low high : ℤ) (s : List ℤ) → low ≤ℤ high → Ascends high s → Ascends low s
Ascends-weaken low high [] le h = tt
Ascends-weaken low high (x ∷ xs) le h = (omega arith, h.1)

module _ (p : ℤ → Bool) where
  pub Ascends-keep : (low : ℤ) (s : List ℤ) → Ascends low s → Ascends low (keep p s)
  Ascends-keep low [] h = tt
  Ascends-keep low (x ∷ xs) h = elim (Bool-cases (p x)) [
    | inl kept ↦ rw kept (h.0, Ascends-keep x xs h.1)
    | inr dropped ↦ rw dropped (Ascends-keep low xs (Ascends-weaken low x xs (omega arith) h.1))
  ]

  keep-insert :
      (a : ℤ) (s : List ℤ)
      → IsAscending s
      → keep p (insert a s) ≡ (if p a then insert a (keep p s) else keep p s)
  unfolding insert
  keep-insert a [] h = ground arith
  keep-insert a (x ∷ xs) h = elim (Bool-cases (ltb_ℤ a x)) [
    | inl before ↦
        let up : Ascends a (keep p (x ∷ xs)) = Ascends-keep a (x ∷ xs) (ground arith, h) in
        let front : insert a (keep p (x ∷ xs)) ≡ a ∷ keep p (x ∷ xs) =
          insert-front a (keep p (x ∷ xs)) up in
        rw before
          (elim (Bool-cases (p a)) [ inl kept ↦ rw kept (sym front) | inr dropped ↦ rw dropped ])
    | inr after ↦ elim (Bool-cases (eqb_ℤ x a)) [
      | inl same ↦
          let e : x ≡ a = (eqb_ℤ_iff x a).0 same in
          let asc : IsAscending (x ∷ keep p xs) = Ascends-keep x xs h in
          let old : insert a (x ∷ keep p xs) ≡ x ∷ keep p xs =
            insert-mem a (x ∷ keep p xs) asc (ground (arith, same)) in
          rw (after, same)
            (elim (Bool-cases (p a)) [
              | inl kept ↦ ground (arith, kept, old, e)
              | inr dropped ↦ ground (arith, dropped, old, e)
            ])
      | inr other ↦
          let ih = keep-insert a xs (Ascends→IsAscending x xs h) in
          let step : insert a (x ∷ keep p xs) ≡ x ∷ insert a (keep p xs) = rw (after, other) in
          rw (after, other)
            (elim (Bool-cases (p x)) [
              | inl kept ↦ rw kept (ground (arith, ih, step))
              | inr dropped ↦ rw dropped ih
            ])
    ]
  ]

  -- A comprehension over a set keeps its members in order.
  pub set_of-keep : (xs : List ℤ) → set_of (keep p xs) ≡ keep p (set_of xs)
  unfolding set_of
  set_of-keep [] = refl
  set_of-keep (x ∷ xs) = elim (Bool-cases (p x)) [
    | inl kept ↦ rw kept (
        ap (insert x) (set_of-keep xs)
        ∙ sym (keep-insert x (set_of xs) (set_of-IsAscending xs) ∙ rw kept))
    | inr dropped ↦
        rw dropped
          (set_of-keep xs ∙ sym (keep-insert x (set_of xs) (set_of-IsAscending xs) ∙ rw dropped))
  ]
