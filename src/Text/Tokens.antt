-- ===== src/Text/Tokens.antt =====
-- `token_at` and `token_index` of transforms/text.py are inverse to one another.
use native.Mathlib.Nat.{pow-suc, pow-zero, le_refl}
use native.Mathlib.Decide.{dec_le}
use mathlib.Core.Path.{ap₂}
use mathlib.Core.List.{reverse-cons, reverse-reverse, ◌++◌}
use dbf_anonymizer.Prelude.{
  ℕ, zero, suc, ◌+◌, ◌-◌, ◌*◌, ◌^◌, ◌≤◌, ◌<◌, ◌≡◌, refl, Bool, true, false, inl, inr, arith, ltb,
  ◌∙◌, sym, ap, ◌↔◌, [], ◌∷◌, reverse, length, length-append, all, ◌&&◌, Bool-cases, Text, contains,
  IsDistinct, ℤ, pos, negsuc, ◌<ℤ◌, ◌≤ℤ◌, ◌⊎◌,
}
use dbf_anonymizer.Errors.{ok, err, value_error, ok-injective}
use dbf_anonymizer.Text.{
  token_at, token_at_loop, token_at_within, token_index, digits_loop, offset_loop, is_safe_token,
}
use dbf_anonymizer.Text.Space.{geometric, geometric-last, space_loop-eq, token_space-eq_geometric}
use dbf_anonymizer.Text.Digits.{
  weight, digits_loop-length, digits_loop-all, weight-digits_loop, digits_loop-weight, weight-lt,
  offset_loop-reverse,
}

abbrev pub IsOver : Text → Text → Type 0
IsOver alphabet s = all (λ x. contains x alphabet) s ≡ true

length-reverse : (s : Text) → length (reverse s) ≡ length s
length-reverse [] = refl
length-reverse (c ∷ s) =
    rw (reverse-cons c s) (omega (arith, length-append (reverse s) (c ∷ []), length-reverse s))

all-append : (p : ℕ → Bool) (s t : Text) → all p (s ++ t) ≡ (all p s && all p t)
all-append p [] t = refl
all-append p (c ∷ s) t = ground (arith, all-append p s t)

all-reverse : (p : ℕ → Bool) (s : Text) → all p (reverse s) ≡ all p s
all-reverse p [] = refl
all-reverse p (c ∷ s) =
    rw (reverse-cons c s) (ground (arith, all-append p (reverse s) (c ∷ []), all-reverse p s))

-- The place of a token among all tokens: the shorter ones come first.
abbrev pub place : Text → Text → ℕ
place alphabet s = geometric (length alphabet) (length s - 1) + weight alphabet (reverse s)

-- What the search for the block of `index` returns, from the block of length `suc k` on.
record Located (alphabet : Text) (k n index : ℕ) (t : Text) : Type 0 where
  long : k < length t
  short : length t ≤ k + n
  over : IsOver alphabet t
  placed : place alphabet t ≡ index

-- `range` counts from 1: the block of length `suc k` begins after `geometric b k` tokens.
unit_length : (k : ℕ) (f : ℕ → ℕ) {n : ℕ} → f k ≡ n → f (suc k - 1) ≡ n
unit_length k f h = let e : suc k - 1 ≡ k = omega arith in rw e h

module _ (alphabet : Text) (d : IsDistinct alphabet) (nonempty : 0 < length alphabet) where
  found_block :
      (k index : ℕ)
      → geometric (length alphabet) k ≤ index
      → index < geometric (length alphabet) k + length alphabet ^ suc k
      → Located alphabet k 1 index
          (reverse (digits_loop (suc k) (index - geometric (length alphabet) k) alphabet))
  found_block k index low high =
      let b = length alphabet in
      let o = index - geometric b k in
      let ds = digits_loop (suc k) o alphabet in
      let len : length (reverse ds) ≡ suc k =
        length-reverse ds ∙ digits_loop-length (suc k) o alphabet in
      record {
        long = omega (arith, len);
        short = omega (arith, len);
        over =
            all-reverse (λ x. contains x alphabet) ds ∙ digits_loop-all (suc k) o alphabet nonempty;
        placed =
            rw (len, reverse-reverse ds, weight-digits_loop (suc k) o alphabet d (omega arith))
              (unit_length k (λ j. geometric b j + o) (omega arith));
      }

  token_at_loop-Located :
      (n k index len term cumulative : ℕ)
      → len ≡ suc k
      → term ≡ length alphabet ^ k
      → cumulative ≡ geometric (length alphabet) k
      → geometric (length alphabet) k ≤ index
      → index < geometric (length alphabet) (k + n)
      → (t : Text) × (token_at_loop n len term cumulative index alphabet ≡ ok t)
        × Located alphabet k n index t
  unfolding token_at_loop
  token_at_loop-Located zero k index len term cumulative el et ec low high =
      let e : k + 0 ≡ k = omega arith in
      let high' : index < geometric (length alphabet) k = rw e at high in absurd (omega arith)
  token_at_loop-Located (suc n) k index len term cumulative el et ec low high =
      let b = length alphabet in
      let block : term * b ≡ b ^ suc k = rw et (sym (pow-suc b k)) in
      let next : cumulative + term * b ≡ geometric b (suc k) =
        rw (block, ec) (sym (geometric-last b k)) in
      elim (Bool-cases (ltb index (cumulative + term * b))) [
        | inl inside ↦
            let high' : index < geometric b k + b ^ suc k =
              let h : index < cumulative + term * b = ground arith in rw (block, ec) at h in
            let l = found_block k index low high' in
            (
              reverse (digits_loop (suc k) (index - geometric b k) alphabet),
              rw inside (rw (el, ec)),
              record {
                long = l.long;
                short = omega (arith, l.short);
                over = l.over;
                placed = l.placed;
              },
            )
        | inr outside ↦
            let low' : geometric b (suc k) ≤ index =
              let h : cumulative + term * b ≤ index = ground arith in rw next at h in
            let shift : k + suc n ≡ suc k + n = omega arith in
            let (t, found, l) =
              token_at_loop-Located n (suc k) index (len + 1) (term * b) (cumulative + term * b)
                (omega arith) block next low' (rw shift at high) in
            (
              t,
              rw outside found,
              record {
                long = omega (arith, l.long);
                short = omega (arith, l.short);
                over = l.over;
                placed = l.placed;
              },
            )
      ]

pub geometric_mono : (b j k : ℕ) → j ≤ k → geometric b j ≤ geometric b k
geometric_mono b j zero h = let e : j ≡ 0 = omega arith in rw e (le_refl (geometric b 0))
geometric_mono b j (suc k) h = elim (dec_le j k) [
  | yes below ↦ omega (arith, geometric_mono b j k below, geometric-last b k)
  | no top ↦ let e : j ≡ suc k = omega arith in rw e (le_refl (geometric b (suc k)))
]

pub token_index-place :
    (alphabet t : Text)
    → is_safe_token t alphabet ≡ true
    → token_index t alphabet ≡ ok (place alphabet t)
unfolding token_index
token_index-place alphabet t h = rw h (
    ap ok (
      ap₂ (◌+◌) (space_loop-eq (length t - 1) (length alphabet) 1 0 ∙ omega arith) (
        ap (offset_loop alphabet 0) (sym (reverse-reverse t))
        ∙ offset_loop-reverse alphabet (reverse t))))

pub is_safe_token_iff :
    (t alphabet : Text) → (is_safe_token t alphabet ≡ true) ↔ ((0 < length t) × IsOver alphabet t)
unfolding is_safe_token
is_safe_token_iff [] alphabet = (λ h. cc, λ h. absurd (omega arith))
is_safe_token_iff (c ∷ t) alphabet = (λ h. (omega arith, h), λ h. h.1)

-- A token of `suc l` characters lies in the block behind all shorter tokens.
pub place-bounds :
    (alphabet t : Text) (l : ℕ)
    → length t ≡ suc l
    → IsOver alphabet t
    → (geometric (length alphabet) l ≤ place alphabet t)
      × (place alphabet t < geometric (length alphabet) (suc l))
place-bounds alphabet t l len over =
    let b = length alphabet in
    let small : weight alphabet (reverse t) < b ^ length (reverse t) =
      weight-lt alphabet (reverse t) (all-reverse (λ x. contains x alphabet) t ∙ over) in
    let small' : weight alphabet (reverse t) < b ^ suc l = rw (length-reverse t, len) at small in
    let at_l : place alphabet t ≡ geometric b l + weight alphabet (reverse t) =
      rw len (unit_length l (λ j. geometric b j + weight alphabet (reverse t)) refl) in
    (omega (arith, at_l), omega (arith, at_l, geometric-last b l))

place-injective :
    (alphabet s t : Text)
    → 0 < length s
    → 0 < length t
    → IsOver alphabet s
    → IsOver alphabet t
    → place alphabet s ≡ place alphabet t
    → s ≡ t
place-injective alphabet s t hs ht os ot same =
    let b = length alphabet in
    let k = length s - 1 in
    let l = length t - 1 in
    let bs = place-bounds alphabet s k (omega arith) os in
    let bt = place-bounds alphabet t l (omega arith) ot in
    let le : k ≤ l = elim (dec_le k l) [
      | yes h ↦ h
      | no h ↦ absurd (omega (arith, geometric_mono b (suc l) k (omega arith)))
    ] in
    let ge : l ≤ k = elim (dec_le l k) [
      | yes h ↦ h
      | no h ↦ absurd (omega (arith, geometric_mono b (suc k) l (omega arith)))
    ] in
    let len : length s ≡ length t = omega arith in
    let w : weight alphabet (reverse s) ≡ weight alphabet (reverse t) =
      omega (arith, ap (λ j. geometric b (j - 1)) len) in
    let len' : length (reverse s) ≡ length (reverse t) =
      length-reverse s ∙ len ∙ sym (length-reverse t) in
    let ds =
      digits_loop-weight alphabet (reverse s) (all-reverse (λ x. contains x alphabet) s ∙ os) in
    let dt =
      digits_loop-weight alphabet (reverse t) (all-reverse (λ x. contains x alphabet) t ∙ ot) in
    let back : reverse s ≡ reverse t = sym ds ∙ ap₂ (λ n o. digits_loop n o alphabet) len' w ∙ dt in
    sym (reverse-reverse s) ∙ ap reverse back ∙ reverse-reverse t

nonempty_of_safe : (alphabet t : Text) → 0 < length t → IsOver alphabet t → 0 < length alphabet
nonempty_of_safe [] [] long over = long
nonempty_of_safe [] (c ∷ t) long over = cc
nonempty_of_safe (x ∷ xs) t long over = omega arith

pub token_at-eq_loop :
    (alphabet : Text) (w : ℕ) (index : ℤ)
    → 0 < length alphabet
    → token_at index (pos w) alphabet
      ≡ token_at_within index w (geometric (length alphabet) w) alphabet
unfolding token_at
token_at-eq_loop alphabet w index nonempty =
    let big : ltb (length alphabet) 1 ≡ false = ground arith in
    rw (big, token_space-eq_geometric w (length alphabet) nonempty)

-- Over an alphabet without repetition, every index below the size of the token space has a token:
-- `token_at` returns it, it is non-empty, at most `w` characters long and made of the alphabet
-- only, and `token_index` gives the index back.
pub token_index-token_at :
    (alphabet : Text) (w index : ℕ)
    → IsDistinct alphabet
    → 0 < length alphabet
    → index < geometric (length alphabet) w
    → (t : Text) × (token_at (pos index) (pos w) alphabet ≡ ok t)
      × (token_index t alphabet ≡ ok index)
      × (is_safe_token t alphabet ≡ true)
      × (length t ≤ w)
unfolding token_at_within
token_index-token_at alphabet w index d nonempty small =
    let b = length alphabet in
    let start : 0 ≡ geometric b 0 = unfold geometric in refl in
    let wide : 0 + w ≡ w = omega arith in
    let small' : index < geometric b (0 + w) = rw wide small in
    let (t, found, l) =
      token_at_loop-Located alphabet d nonempty w 0 index 1 1 0 refl (sym (pow-zero b)) start
        (omega (arith, start)) small' in
    let inside : ltb index (geometric b w) ≡ true = ground arith in
    let safe = (is_safe_token_iff t alphabet).1 (omega (arith, l.long), l.over) in
    (
      t,
      token_at-eq_loop alphabet w (pos index) nonempty ∙ rw inside found,
      token_index-place alphabet t safe ∙ ap ok l.placed,
      safe,
      omega (arith, l.short),
    )

-- Every safe token of at most `w` characters has an index, and `token_at` gives the token back.
pub token_at-token_index :
    (alphabet t : Text) (w : ℕ)
    → IsDistinct alphabet
    → is_safe_token t alphabet ≡ true
    → length t ≤ w
    → (index : ℕ) × (token_index t alphabet ≡ ok index)
      × (token_at (pos index) (pos w) alphabet ≡ ok t)
token_at-token_index alphabet t w d safe short =
    let b = length alphabet in
    let (long, over) = (is_safe_token_iff t alphabet).0 safe in
    let bounds = place-bounds alphabet t (length t - 1) (omega arith) over in
    let room = geometric_mono b (suc (length t - 1)) w (omega arith) in
    let (t', found, indexed, safe', _) =
      token_index-token_at alphabet w (place alphabet t) d (nonempty_of_safe alphabet t long over)
        (omega arith) in
    let (long', over') = (is_safe_token_iff t' alphabet).0 safe' in
    let placed : place alphabet t' ≡ place alphabet t =
      ok-injective (sym (token_index-place alphabet t' safe') ∙ indexed) in
    let same : t' ≡ t = place-injective alphabet t' t long' long over' over placed in
    (place alphabet t, token_index-place alphabet t safe, found ∙ ap ok same)

-- `token_at` refuses exactly the indices outside the token space: with a non-empty alphabet it
-- raises ValueError for a negative index and for every index from the size of the space on.
pub token_at_outside :
    (alphabet : Text) (w : ℕ) (index : ℤ)
    → 0 < length alphabet
    → (index <ℤ pos 0) ⊎ (pos (geometric (length alphabet) w) ≤ℤ index)
    → token_at index (pos w) alphabet ≡ err value_error
token_at_outside alphabet w (negsuc n) nonempty h =
    token_at-eq_loop alphabet w (negsuc n) nonempty ∙ (unfold token_at_within in refl)
token_at_outside alphabet w (pos n) nonempty h =
    let outside : ltb n (geometric (length alphabet) w) ≡ false = ground arith in
    token_at-eq_loop alphabet w (pos n) nonempty ∙ (unfold token_at_within in rw outside)
