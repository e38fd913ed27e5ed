-- ===== src/CanonicalText/RoundTrip.antt =====
-- transforms/numeric_keys.py: the text of an integer key and its parse are inverse.
use dbf_anonymizer.Prelude.{
  ℕ, zero, suc, ◌+◌, ◌-◌, ◌*◌, ◌<◌, ◌≤◌, ◌≡◌, ◌≢◌, refl, sym, ◌∙◌, ap, inl, inr, true, false, ◌&&◌,
  Bool-cases, &&-parts, ==_iff, [], ◌∷◌, ◌++◌, arith, leb, ◌==◌, all, ℤ, pos, negsuc, -ℤ_of, Text,
}
use dbf_anonymizer.Errors.{ok, ok-injective}
use dbf_anonymizer.Values.{integer, text}
use dbf_anonymizer.CanonicalText.{
  decimal, int_text, canonical_integer_text, is_digit, is_nonzero_led, is_canonical, value_loop,
  int_of, parse_canonical_integer_text, minus,
}
use dbf_anonymizer.CanonicalText.Digits.{
  Digits, decimal_small, value_loop-decimal, is_nonzero_led-decimal, decimal-value_loop,
}

append_nil : (cs : Text) → cs ++ [] ≡ cs
append_nil [] = refl
append_nil (c ∷ cs) = ap (◌∷◌ c) (append_nil cs)

not_led : is_nonzero_led [] ≢ true
unfolding is_nonzero_led
not_led h = ground (arith, h)

nonzero_led-parts :
    (c : ℕ) (cs : Text) → is_nonzero_led (c ∷ cs) ≡ true → (49 ≤ c) × (c ≤ 57) × Digits cs
unfolding is_nonzero_led
nonzero_led-parts c cs h =
    let d = &&-parts (leb 49 c && leb c 57) (all is_digit cs) h in
    let e = d.0 in (ground (arith, e), ground (arith, e), d.1)

-- a positive text is canonical and read as it stands
positive-is_canonical :
    (t : Text)
    → is_nonzero_led t ≡ true
    → (is_canonical t ≡ true) × (int_of t ≡ pos (value_loop 0 t))
unfolding is_canonical int_of
positive-is_canonical [] h = absurd (not_led h)
positive-is_canonical (c ∷ []) h =
    let p = nonzero_led-parts c [] h in
    let other : (c == minus) ≡ false = ground arith in
    let led : (c == 48) ≡ false = ground arith in (rw led h, rw other)
positive-is_canonical (c ∷ d ∷ cs) h =
    let p = nonzero_led-parts c (d ∷ cs) h in
    let other : (c == minus) ≡ false = ground arith in (rw other h, rw other)

negative-is_canonical :
    (t : Text)
    → is_nonzero_led t ≡ true
    → (is_canonical (minus ∷ t) ≡ true) × (int_of (minus ∷ t) ≡ -ℤ_of (pos (value_loop 0 t)))
unfolding is_canonical int_of
negative-is_canonical [] h = absurd (not_led h)
negative-is_canonical (c ∷ cs) h = (h, refl)

value_loop-le : (cs : Text) (n : ℕ) → n ≤ value_loop n cs
unfolding value_loop
value_loop-le [] n = omega arith
value_loop-le (c ∷ cs) n = omega (arith, value_loop-le cs (n * 10 + (c - 48)))

-- a positive text is written back, from a number that is not 0
decimal-nonzero_led :
    (t : Text)
    → is_nonzero_led t ≡ true
    → (0 < value_loop 0 t) × (decimal (value_loop 0 t) (value_loop 0 t) [] ≡ t)
unfolding value_loop
decimal-nonzero_led [] h = absurd (not_led h)
decimal-nonzero_led (c ∷ cs) h =
    let p = nonzero_led-parts c cs h in
    let low = value_loop-le cs (c - 48) in
    let v : ℕ = value_loop (c - 48) cs in
    let written : decimal v v [] ≡ decimal (c - 48) (c - 48) (cs ++ []) =
      decimal-value_loop cs (c - 48) v [] (omega arith) p.2 (omega arith) in
    let first : decimal (c - 48) (c - 48) (cs ++ []) ≡ (48 + (c - 48)) ∷ (cs ++ []) =
      decimal_small (c - 48) (c - 48) (cs ++ []) (omega arith) in
    let back : 48 + (c - 48) ≡ c = omega arith in
    let start : value_loop 0 (c ∷ cs) ≡ v = ap (λ m. value_loop m cs) (omega arith) in
    rw start
      (omega arith, written ∙ first ∙ ap (λ x. x ∷ (cs ++ [])) back ∙ ap (◌∷◌ c) (append_nil cs))

value_loop_nil : (n : ℕ) → value_loop n [] ≡ n
unfolding value_loop
value_loop_nil n = refl

minus_suc : (n : ℕ) → -ℤ_of (pos (suc n)) ≡ negsuc n
minus_suc n = ground arith

zero_canonical : (is_canonical (int_text (pos 0)) ≡ true) × (int_of (int_text (pos 0)) ≡ pos 0)
unfolding int_text is_canonical int_of
zero_canonical = (refl, refl)

-- the text of a number whose digits are led by one that is not 0
int_text-positive : (v : ℕ) → int_text (pos v) ≡ decimal v v []
unfolding int_text
int_text-positive v = refl

int_text-negative : (v : ℕ) → 0 < v → int_text (-ℤ_of (pos v)) ≡ minus ∷ decimal v v []
unfolding int_text
int_text-negative zero h = absurd (omega arith)
int_text-negative (suc v) h = ap int_text (minus_suc v)

positive_back : (t : Text) → is_nonzero_led t ≡ true → int_text (int_of t) ≡ t
positive_back t led =
    ap int_text (positive-is_canonical t led).1
    ∙ int_text-positive (value_loop 0 t)
    ∙ (decimal-nonzero_led t led).1

negative_back : (t : Text) → is_nonzero_led t ≡ true → int_text (int_of (minus ∷ t)) ≡ minus ∷ t
negative_back t led =
    let d = decimal-nonzero_led t led in
    ap int_text (negative-is_canonical t led).1
    ∙ int_text-negative (value_loop 0 t) d.0
    ∙ ap (◌∷◌ minus) d.1

int_text-canonical :
    (value : ℤ) → (is_canonical (int_text value) ≡ true) × (int_of (int_text value) ≡ value)
unfolding int_text
int_text-canonical (pos zero) = zero_canonical
int_text-canonical (pos (suc n)) =
    let led = is_nonzero_led-decimal (suc n) (suc n) [] (omega arith) (omega arith) refl in
    let read = positive-is_canonical (decimal (suc n) (suc n) []) led in
    (
      read.0,
      read.1
          ∙ ap pos (value_loop-decimal (suc n) (suc n) [] (omega arith) ∙ value_loop_nil (suc n)),
    )
int_text-canonical (negsuc n) =
    let led = is_nonzero_led-decimal (suc n) (suc n) [] (omega arith) (omega arith) refl in
    let read = negative-is_canonical (decimal (suc n) (suc n) []) led in
    (
      read.0,
      read.1
          ∙ ap (λ m. -ℤ_of (pos m))
              (value_loop-decimal (suc n) (suc n) [] (omega arith) ∙ value_loop_nil (suc n))
          ∙ minus_suc n,
    )

pub int_text-int_of : (t : Text) → is_canonical t ≡ true → int_text (int_of t) ≡ t
unfolding is_canonical int_text
int_text-int_of [] h = absurd (ground (arith, h))
int_text-int_of (c ∷ []) h = elim (Bool-cases (c == 48)) [
  | inl z ↦ rw ((==_iff c 48).0 z) (ap int_text zero_canonical.1)
  | inr other ↦ positive_back (c ∷ []) (sym (rw other) ∙ h)
]
int_text-int_of (c ∷ d ∷ cs) h = elim (Bool-cases (c == minus)) [
  | inl m ↦
      let signed : c ≡ minus = (==_iff c minus).0 m in
      let led : is_nonzero_led (d ∷ cs) ≡ true = sym (rw m) ∙ h in
      rw signed (negative_back (d ∷ cs) led)
  | inr other ↦ positive_back (c ∷ d ∷ cs) (sym (rw other) ∙ h)
]

-- The text of an integer key is canonical, and its parse is the key.
pub parse_canonical_integer_text-canonical_integer_text :
    (value : ℤ) (t : Text)
    → canonical_integer_text (integer value) ≡ ok t
    → parse_canonical_integer_text (text t) ≡ ok value
unfolding canonical_integer_text parse_canonical_integer_text
parse_canonical_integer_text-canonical_integer_text value t h =
    let written : int_text value ≡ t = ok-injective h in
    let read = int_text-canonical value in rw (sym written, read.0, read.1)

-- A text that parses is the one canonical text of the key it gives.
pub canonical_integer_text-parse_canonical_integer_text :
    (t : Text) (value : ℤ)
    → parse_canonical_integer_text (text t) ≡ ok value
    → canonical_integer_text (integer value) ≡ ok t
unfolding canonical_integer_text parse_canonical_integer_text
canonical_integer_text-parse_canonical_integer_text t value h = elim (Bool-cases (is_canonical t)) [
  | inl good ↦
      let read : int_of t ≡ value = ok-injective (sym (rw good) ∙ h) in
      ap (λ v. ok (int_text v)) (sym read) ∙ ap ok (int_text-int_of t good)
  | inr refused ↦ ground (arith, refused)
]
