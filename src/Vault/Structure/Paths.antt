-- ===== src/Vault/Structure/Paths.antt =====
-- vault/store.py: what _normalize_relative_path makes of a path.
use mathlib.Core.Path.{subst}
use dbf_anonymizer.Prelude.{
  ℕ, ◌≡◌, refl, ◌∙◌, ap, inl, inr, Bool, true, false, ◌||◌, ||-false, Bool-cases, if-elim, arith,
  List, [], ◌∷◌, ◌++◌, map, ◌==◌, any, keep, All, Text, contains, text_eq,
}
use dbf_anonymizer.Errors.{ok, ok-injective, >>-eq-ok, raise_if, raise_if-eq-ok, value_error}
use dbf_anonymizer.Vault.Structure.{
  nul, slash, colon, backslash, to_slash, extend, split_slash, join_more, join_slash, is_named,
  is_parent, is_empty, normalize_relative_path,
}

abbrev Lacks : ℕ → Text → Type 0
Lacks d s = contains d s ≡ false

extend-Lacks :
    (d c : ℕ) (parts : List Text)
    → (c == d) ≡ false
    → All (Lacks d) parts
    → All (Lacks d) (extend c parts)
extend-Lacks d c [] other h = (ground (arith, other), tt)
extend-Lacks d c (part ∷ parts) other h = (ground (arith, other, h.0), h.1)

split_slash-Lacks : (d : ℕ) (s : Text) → Lacks d s → All (Lacks d) (split_slash s)
unfolding split_slash
split_slash-Lacks d [] h = (refl, tt)
split_slash-Lacks d (c ∷ s) h =
    let parts = ||-false (c == d) (contains d s) h in
    let rest = split_slash-Lacks d s parts.1 in
    if-elim (All (Lacks d)) (c == slash) (refl, rest)
      (extend-Lacks d c (split_slash s) parts.0 rest)

split_slash-whole : (s : Text) → All (Lacks slash) (split_slash s)
unfolding split_slash
split_slash-whole [] = (refl, tt)
split_slash-whole (c ∷ s) = elim (Bool-cases (c == slash)) [
  | inl here ↦ rw here (refl, split_slash-whole s)
  | inr other ↦ rw other (extend-Lacks slash c (split_slash s) other (split_slash-whole s))
]

-- A part without a slash, before a slash or at the end, is one part.
split_slash-part :
    (part s : Text) → Lacks slash part → split_slash (part ++ (slash ∷ s)) ≡ part ∷ split_slash s
unfolding split_slash
split_slash-part [] s h = refl
split_slash-part (c ∷ part) s h =
    let parts = ||-false (c == slash) (contains slash part) h in
    rw (parts.0, split_slash-part part s parts.1) refl

split_slash-last : (part : Text) → Lacks slash part → split_slash part ≡ part ∷ []
unfolding split_slash
split_slash-last [] h = refl
split_slash-last (c ∷ part) h =
    let parts = ||-false (c == slash) (contains slash part) h in
    rw (parts.0, split_slash-last part parts.1) refl

-- Joining and splitting again gives the parts.
split_slash-join :
    (part : Text) (parts : List Text)
    → All (Lacks slash) (part ∷ parts)
    → split_slash (join_more part parts) ≡ part ∷ parts
split_slash-join part [] h = split_slash-last part h.0
split_slash-join part (next ∷ parts) h =
    split_slash-part part (join_more next parts) h.0
    ∙ ap (◌∷◌ part) (split_slash-join next parts h.1)

contains-append : (d : ℕ) (s t : Text) → contains d (s ++ t) ≡ (contains d s || contains d t)
contains-append d [] t = refl
contains-append d (c ∷ s) t = ground (arith, contains-append d s t)

join_more-Lacks :
    (d : ℕ) (part : Text) (parts : List Text)
    → (slash == d) ≡ false
    → All (Lacks d) (part ∷ parts)
    → Lacks d (join_more part parts)
join_more-Lacks d part [] other h = h.0
join_more-Lacks d part (next ∷ parts) other h =
    let rest = join_more-Lacks d next parts other h.1 in
    let first = h.0 in
    contains-append d part (slash ∷ join_more next parts) ∙ ground (arith, other, rest, first)

to_slash-Lacks : (s : Text) → Lacks backslash (map to_slash s)
to_slash-Lacks [] = refl
to_slash-Lacks (c ∷ s) = elim (Bool-cases (c == backslash)) [
  | inl here ↦ rw here (to_slash-Lacks s)
  | inr other ↦ rw (other, other) (to_slash-Lacks s)
]

to_slash-nul : (s : Text) → Lacks nul s → Lacks nul (map to_slash s)
to_slash-nul [] h = refl
to_slash-nul (c ∷ s) h =
    let parts = ||-false (c == nul) (contains nul s) h in
    elim (Bool-cases (c == backslash)) [
      | inl here ↦ rw here (to_slash-nul s parts.1)
      | inr other ↦ rw (other, parts.0) (to_slash-nul s parts.1)
    ]

to_slash-eq : (s : Text) → Lacks backslash s → map to_slash s ≡ s
to_slash-eq [] h = refl
to_slash-eq (c ∷ s) h =
    let parts = ||-false (c == backslash) (contains backslash s) h in
    rw parts.0 (ap (◌∷◌ c) (to_slash-eq s parts.1))

All-keep_same :
    (P : Text → Type 0) (p : Text → Bool) (xs : List Text) → All P xs → All P (keep p xs)
All-keep_same P p [] h = tt
All-keep_same P p (x ∷ xs) h =
    if-elim (All P) (p x) (h.0, All-keep_same P p xs h.1) (All-keep_same P p xs h.1)

keep-passes : (p : Text → Bool) (xs : List Text) → All (λ x. p x ≡ true) (keep p xs)
keep-passes p [] = tt
keep-passes p (x ∷ xs) = elim (Bool-cases (p x)) [
  | inl passes ↦ rw passes (passes, keep-passes p xs)
  | inr fails ↦ rw fails (keep-passes p xs)
]

keep-whole : (p : Text → Bool) (xs : List Text) → All (λ x. p x ≡ true) xs → keep p xs ≡ xs
keep-whole p [] h = refl
keep-whole p (x ∷ xs) h = rw h.0 (ap (◌∷◌ x) (keep-whole p xs h.1))

any-All : (p : Text → Bool) (xs : List Text) → any p xs ≡ false → All (λ x. p x ≡ false) xs
any-All p [] h = tt
any-All p (x ∷ xs) h = let parts = ||-false (p x) (any p xs) h in (parts.0, any-All p xs parts.1)

join_more-named :
    (part : Text) (parts : List Text)
    → is_named part ≡ true
    → text_eq (join_more part parts) [] ≡ false
join_more-named [] parts h = cc
join_more-named (c ∷ part) [] h = refl
join_more-named (c ∷ part) (next ∷ parts) h = refl

-- A part of a normalized path: not empty, neither "." nor "..", and without a drive separator.
abbrev pub IsSafePart : Text → Type 0
IsSafePart part = (is_named part ≡ true) × (is_parent part ≡ false) × (contains colon part ≡ false)

abbrev pub IsNormal : Text → Type 0
IsNormal path = (normalize_relative_path path ≡ ok path) × All IsSafePart (split_slash path)

zip-safe :
    (parts : List Text)
    → All (λ x. is_named x ≡ true) parts
    → All (λ x. is_parent x ≡ false) parts
    → All (λ x. contains colon x ≡ false) parts
    → All IsSafePart parts
zip-safe [] h i j = tt
zip-safe (part ∷ parts) h i j = ((h.0, i.0, j.0), zip-safe parts h.1 i.1 j.1)

join_slash-IsNormal :
    (parts : List Text)
    → (is_empty parts || any is_parent parts) ≡ false
    → any (contains colon) parts ≡ false
    → All (λ x. is_named x ≡ true) parts
    → All (Lacks slash) parts
    → All (Lacks backslash) parts
    → All (Lacks nul) parts
    → IsNormal (join_slash parts)
unfolding normalize_relative_path
join_slash-IsNormal [] some_part no_colon named whole forward no_nul = cc
join_slash-IsNormal (part ∷ parts) some_part no_colon named whole forward no_nul =
    let path = join_more part parts in
    let filled : (text_eq path [] || contains nul path) ≡ false =
      rw (join_more-named part parts named.0, join_more-Lacks nul part parts refl no_nul) refl in
    let same : map to_slash path ≡ path =
      to_slash-eq path (join_more-Lacks backslash part parts refl forward) in
    let split : split_slash path ≡ part ∷ parts = split_slash-join part parts whole in
    let kept : keep is_named (split_slash (map to_slash path)) ≡ part ∷ parts =
      rw (same, split) (keep-whole is_named (part ∷ parts) named) in
    (
      rw (filled, kept, some_part, no_colon) refl,
      rw split (
          zip-safe (part ∷ parts) named (any-All is_parent (part ∷ parts) some_part)
            (any-All (contains colon) (part ∷ parts) no_colon)),
    )

-- A normalized path is traversal-free and normal: whatever `_normalize_relative_path` returned is
-- returned unchanged when it is normalized again, and each of its parts between slashes is neither
-- empty nor "." nor "..", and has no drive separator.
pub normalize_relative_path-IsNormal :
    (value path : Text) → normalize_relative_path value ≡ ok path → IsNormal path
unfolding normalize_relative_path
normalize_relative_path-IsNormal value path h =
    let cleaned = map to_slash value in
    let parts = keep is_named (split_slash cleaned) in
    let s = >>-eq-ok (raise_if (text_eq value [] || contains nul value) value_error) _ h in
    let t = >>-eq-ok (raise_if (is_empty parts || any is_parent parts) value_error) _ s.1 in
    let u = >>-eq-ok (raise_if (any (contains colon) parts) value_error) _ t.1 in
    let filled = ||-false (text_eq value []) (contains nul value) (raise_if-eq-ok _ _ s.0) in
    let result =
      join_slash-IsNormal parts (raise_if-eq-ok _ value_error t.0)
        (raise_if-eq-ok _ value_error u.0) (keep-passes is_named (split_slash cleaned))
        (All-keep_same (Lacks slash) is_named _ (split_slash-whole cleaned))
        (All-keep_same (Lacks backslash) is_named _
          (split_slash-Lacks backslash cleaned (to_slash-Lacks value)))
        (All-keep_same (Lacks nul) is_named _
          (split_slash-Lacks nul cleaned (to_slash-nul value filled.1))) in
    subst IsNormal (ok-injective u.1) result
