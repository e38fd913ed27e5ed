-- ===== src/Text/Digits.antt =====
-- The inner loops of `token_at` and `token_index` in transforms/text.py: fixed-length blocks.
use native.Mathlib.Nat.{pow-suc, pow-zero}
use mathlib.Core.List.{reverse-cons}
use dbf_anonymizer.Prelude.{
  ℕ, zero, suc, ◌+◌, ◌*◌, ◌/◌, ◌%◌, ◌^◌, ◌<◌, ◌≡◌, refl, true, inl, inr, arith, ap, [], ◌∷◌, ◌++◌,
  reverse, length, get_or, all, ◌==◌, Bool-cases, Text, contains, IsDistinct,
}
use dbf_anonymizer.Text.{index_of, offset_loop, digits_loop}

-- The number that a block stands for, from its last character.
abbrev pub weight : Text → Text → ℕ
weight alphabet [] = 0
weight alphabet (c ∷ r) = weight alphabet r * length alphabet + index_of c alphabet

-- Division with remainder by a base that is a variable.
block_lt : (w i p b : ℕ) → w < p → i < b → w * b + i < p * b
block_lt w i p b h k = grind arith

div-lt_block : (o p b : ℕ) → o < p * b → o / b < p
div-lt_block o p b h = grind arith

block-div : (w i b : ℕ) → i < b → (w * b + i) / b ≡ w
block-div w i b h = grind arith

block-mod : (w i b : ℕ) → i < b → (w * b + i) % b ≡ i
block-mod w i b h = grind arith

base_pos : (o p b : ℕ) → o < p * b → 0 < b
base_pos o p b h = grind arith

div_mod : (o b : ℕ) → o / b * b + o % b ≡ o
div_mod o b = grind arith

get_or_contained :
    (alphabet : Text) (k : ℕ) → k < length alphabet → contains (get_or alphabet k 0) alphabet ≡ true
get_or_contained [] k h = absurd (omega arith)
get_or_contained (x ∷ xs) zero h = ground arith
get_or_contained (x ∷ xs) (suc k) h = ground (arith, get_or_contained xs k)

-- In an alphabet without repetition a position is found again.
pub index_of-get_or :
    (alphabet : Text) (k : ℕ)
    → IsDistinct alphabet
    → k < length alphabet
    → index_of (get_or alphabet k 0) alphabet ≡ k
unfolding index_of
index_of-get_or [] k d h = absurd (omega arith)
index_of-get_or (x ∷ xs) zero d h = ground arith
index_of-get_or (x ∷ xs) (suc k) d h =
    ground (arith, index_of-get_or xs k d.1, get_or_contained xs k)

pub get_or-index_of :
    (alphabet : Text) (c : ℕ)
    → contains c alphabet ≡ true
    → (index_of c alphabet < length alphabet) × (get_or alphabet (index_of c alphabet) 0 ≡ c)
unfolding index_of
get_or-index_of [] c h = cc
get_or-index_of (x ∷ xs) c h = elim (Bool-cases (x == c)) [
  | inl same ↦ ground arith
  | inr other ↦ rw other (ground (arith, get_or-index_of xs c))
]

offset_loop-snoc :
    (alphabet : Text) (acc : ℕ) (s : Text) (c : ℕ)
    → offset_loop alphabet acc (s ++ (c ∷ []))
      ≡ offset_loop alphabet acc s * length alphabet + index_of c alphabet
unfolding offset_loop
offset_loop-snoc alphabet acc [] c = refl
offset_loop-snoc alphabet acc (x ∷ s) c =
    offset_loop-snoc alphabet (acc * length alphabet + index_of x alphabet) s c

pub offset_loop-reverse :
    (alphabet r : Text) → offset_loop alphabet 0 (reverse r) ≡ weight alphabet r
offset_loop-reverse alphabet [] = unfold offset_loop in refl
offset_loop-reverse alphabet (c ∷ r) =
    rw (reverse-cons c r)
      (rw (offset_loop-snoc alphabet 0 (reverse r) c) (rw (offset_loop-reverse alphabet r)))

pub digits_loop-length : (n o : ℕ) (alphabet : Text) → length (digits_loop n o alphabet) ≡ n
unfolding digits_loop
digits_loop-length zero o alphabet = refl
digits_loop-length (suc n) o alphabet = ap suc (digits_loop-length n (o / length alphabet) alphabet)

pub digits_loop-all :
    (n o : ℕ) (alphabet : Text)
    → 0 < length alphabet
    → all (λ x. contains x alphabet) (digits_loop n o alphabet) ≡ true
unfolding digits_loop
digits_loop-all zero o alphabet h = refl
digits_loop-all (suc n) o alphabet h = ground (
  arith,
  digits_loop-all n (o / length alphabet) alphabet,
  get_or_contained alphabet (o % length alphabet),
)

-- The digits of an offset inside its block stand for that offset.
pub weight-digits_loop :
    (n o : ℕ) (alphabet : Text)
    → IsDistinct alphabet
    → o < length alphabet ^ n
    → weight alphabet (digits_loop n o alphabet) ≡ o
unfolding digits_loop
weight-digits_loop zero o alphabet d h = grind (arith, pow-zero (length alphabet))
weight-digits_loop (suc n) o alphabet d h =
    let b = length alphabet in
    let h' : o < b ^ n * b = rw (pow-suc b n) at h in
    let pos_b : 0 < b = base_pos o (b ^ n) b h' in
    let rest = weight-digits_loop n (o / b) alphabet d (div-lt_block o (b ^ n) b h') in
    let here = index_of-get_or alphabet (o % b) d (omega arith) in rw (rest, here) (div_mod o b)

-- The digits of a block's number are the block.
pub digits_loop-weight :
    (alphabet r : Text)
    → all (λ x. contains x alphabet) r ≡ true
    → digits_loop (length r) (weight alphabet r) alphabet ≡ r
unfolding digits_loop
digits_loop-weight alphabet [] h = refl
digits_loop-weight alphabet (c ∷ r) h =
    let b = length alphabet in
    let (small, found) = get_or-index_of alphabet c (ground arith) in
    let rest = digits_loop-weight alphabet r (ground arith) in
    rw
      (
        block-div (weight alphabet r) (index_of c alphabet) b small,
        block-mod (weight alphabet r) (index_of c alphabet) b small,
      )
      (cc)

pub weight-lt :
    (alphabet r : Text)
    → all (λ x. contains x alphabet) r ≡ true
    → weight alphabet r < length alphabet ^ length r
weight-lt alphabet [] h = grind (arith, pow-zero (length alphabet))
weight-lt alphabet (c ∷ r) h =
    let b = length alphabet in
    let (small, _) = get_or-index_of alphabet c (ground arith) in
    let rest = weight-lt alphabet r (ground arith) in
    rw (pow-suc b (length r))
      (block_lt (weight alphabet r) (index_of c alphabet) (b ^ length r) b rest small)
