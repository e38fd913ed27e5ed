-- ===== src/CanonicalText/Digits.antt =====
-- transforms/numeric_keys.py: decimal digits, written and read.
use dbf_anonymizer.Prelude.{
  ℕ, zero, suc, ◌+◌, ◌-◌, ◌*◌, ◌/◌, ◌%◌, ◌<◌, ◌≤◌, ◌≡◌, refl, sym, ◌∙◌, ap, ◌⊎◌, inl, inr, true,
  false, Bool-cases, &&-parts, [], ◌∷◌, ◌++◌, arith, ltb, all, Text,
}
use dbf_anonymizer.CanonicalText.{decimal, is_digit, is_nonzero_led, value_loop}

abbrev pub Digits : Text → Type 0
Digits cs = all is_digit cs ≡ true

Digits-parts : (c : ℕ) (cs : Text) → Digits (c ∷ cs) → (48 ≤ c) × (c ≤ 57) × Digits cs
Digits-parts c cs h =
    let d = &&-parts (is_digit c) (all is_digit cs) h in
    let e = d.0 in (ground (arith, e), ground (arith, e), d.1)

Digits-cons : (c : ℕ) (cs : Text) → 48 ≤ c → c ≤ 57 → Digits cs → Digits (c ∷ cs)
Digits-cons c cs low high h = let d : is_digit c ≡ true = ground arith in rw d h

pub decimal_small : (fuel n : ℕ) (later : Text) → n < 10 → decimal fuel n later ≡ (48 + n) ∷ later
unfolding decimal
decimal_small zero n later h = refl
decimal_small (suc fuel) n later h = let small : ltb n 10 ≡ true = ground arith in rw small

decimal_step :
    (fuel n : ℕ) (later : Text)
    → 10 ≤ n
    → decimal (suc fuel) n later ≡ decimal fuel (n / 10) ((48 + n % 10) ∷ later)
unfolding decimal
decimal_step fuel n later h = let large : ltb n 10 ≡ false = ground arith in rw large

ten_or : (n : ℕ) → (n < 10) ⊎ (10 ≤ n)
ten_or n = elim (Bool-cases (ltb n 10)) [
  | inl small ↦ inl (ground arith)
  | inr large ↦ inr (ground arith)
]

last_digit : (n : ℕ) → n / 10 * 10 + (48 + n % 10 - 48) ≡ n
last_digit n = omega arith

-- Reading the digits again gives the number.
pub value_loop-decimal :
    (fuel n : ℕ) (later : Text)
    → n ≤ fuel
    → value_loop 0 (decimal fuel n later) ≡ value_loop n later
unfolding value_loop
value_loop-decimal zero n later h =
    rw (decimal_small zero n later (omega arith)) (ap (λ m. value_loop m later) (omega arith))
value_loop-decimal (suc fuel) n later h = elim (ten_or n) [
  | inl small ↦
      rw (decimal_small (suc fuel) n later small) (ap (λ m. value_loop m later) (omega arith))
  | inr large ↦ rw (decimal_step fuel n later large) (
      value_loop-decimal fuel (n / 10) ((48 + n % 10) ∷ later) (omega arith)
      ∙ ap (λ m. value_loop m later) (last_digit n))
]

-- The digits start with one that is not 0.
pub is_nonzero_led-decimal :
    (fuel n : ℕ) (later : Text)
    → 0 < n
    → n ≤ fuel
    → Digits later
    → is_nonzero_led (decimal fuel n later) ≡ true
unfolding is_nonzero_led
is_nonzero_led-decimal zero n later pos_n h ds = absurd (omega arith)
is_nonzero_led-decimal (suc fuel) n later pos_n h ds = elim (ten_or n) [
  | inl small ↦ rw (decimal_small (suc fuel) n later small) (ground (arith, ds))
  | inr large ↦ rw (decimal_step fuel n later large) (
      is_nonzero_led-decimal fuel (n / 10) ((48 + n % 10) ∷ later) (omega arith) (omega arith)
        (Digits-cons (48 + n % 10) later (omega arith) (omega arith) ds))
]

-- More rounds than needed change nothing.
decimal-fuel : (f g n : ℕ) (later : Text) → n ≤ f → n ≤ g → decimal f n later ≡ decimal g n later
decimal-fuel zero g n later hf hg =
    decimal_small zero n later (omega arith) ∙ sym (decimal_small g n later (omega arith))
decimal-fuel (suc f) zero n later hf hg =
    decimal_small (suc f) n later (omega arith) ∙ sym (decimal_small zero n later (omega arith))
decimal-fuel (suc f) (suc g) n later hf hg = elim (ten_or n) [
  | inl small ↦ decimal_small (suc f) n later small ∙ sym (decimal_small (suc g) n later small)
  | inr large ↦
      decimal_step f n later large
      ∙ decimal-fuel f g (n / 10) ((48 + n % 10) ∷ later) (omega arith) (omega arith)
      ∙ sym (decimal_step g n later large)
]

read_digit :
    (n c : ℕ)
    → 48 ≤ c
    → c ≤ 57
    → ((n * 10 + (c - 48)) / 10 ≡ n) × (48 + (n * 10 + (c - 48)) % 10 ≡ c)
read_digit n c low high = (omega arith, omega arith)

decimal-read :
    (n c : ℕ) (later : Text)
    → 0 < n
    → 48 ≤ c
    → c ≤ 57
    → decimal (n * 10 + (c - 48)) (n * 10 + (c - 48)) later ≡ decimal n n (c ∷ later)
decimal-read n c later pos_n low high =
    let m : ℕ = n * 10 + (c - 48) in
    let digit = read_digit n c low high in
    decimal-fuel m (suc m) m later (omega arith) (omega arith)
    ∙ decimal_step m m later (omega arith)
    ∙ ap (λ x. decimal m x ((48 + m % 10) ∷ later)) digit.0
    ∙ ap (λ x. decimal m n (x ∷ later)) digit.1
    ∙ decimal-fuel m n n (c ∷ later) (omega arith) (omega arith)

-- The digits of what was read are what was read.
pub decimal-value_loop :
    (cs : Text) (n fuel : ℕ) (later : Text)
    → 0 < n
    → Digits cs
    → value_loop n cs ≤ fuel
    → decimal fuel (value_loop n cs) later ≡ decimal n n (cs ++ later)
unfolding value_loop
decimal-value_loop [] n fuel later pos_n ds h = decimal-fuel fuel n n later h (omega arith)
decimal-value_loop (c ∷ cs) n fuel later pos_n ds h =
    let d = Digits-parts c cs ds in
    decimal-value_loop cs (n * 10 + (c - 48)) fuel later (omega arith) d.2 h
    ∙ decimal-read n c (cs ++ later) pos_n d.0 d.1
