-- ===== src/Text/Alphabet.antt =====
-- The proven safe alphabet and the byte lengths of transforms/text.py.
use mathlib.Core.List.{◌++◌}
use dbf_anonymizer.Prelude.{
  ℕ, ◌≤◌, ◌≡◌, ◌↔◌, refl, sym, ap, &&-parts, Bool, true, false, not, inl, inr, arith, ltb, ◌∙◌,
  List, [], ◌∷◌, length, all, length-append, keep, All, ◌&&◌, ◌==◌, if◌then◌else◌, Bool-cases,
  ==_iff, Text, contains, IsDistinct, Option, none, some, String, Option-cases,
}
use dbf_anonymizer.Text.{
  Codec, safe_text_alphabet, encodes_to_one_byte, accepted, candidate_alphabet, encoded_byte_length,
  larger, max_length_loop, max_encoded_byte_length, is_safe_token,
}
use dbf_anonymizer.Text.Tokens.{is_safe_token_iff}

contains-keep : (p : ℕ → Bool) (c : ℕ) (xs : Text) → contains c (keep p xs) ≡ (contains c xs && p c)
contains-keep p c [] = refl
contains-keep p c (x ∷ xs) = elim (Bool-cases (x == c)) [
  | inl same ↦ let e : x ≡ c = (==_iff x c).0 same in rw e (ground (arith, contains-keep p c xs))
  | inr other ↦ ground (arith, contains-keep p c xs)
]

IsDistinct-keep : (p : ℕ → Bool) (xs : Text) → IsDistinct xs → IsDistinct (keep p xs)
IsDistinct-keep p [] d = tt
IsDistinct-keep p (x ∷ xs) d = elim (Bool-cases (p x)) [
  | inl kept ↦ rw kept (contains-keep p x xs ∙ ground arith, IsDistinct-keep p xs d.1)
  | inr dropped ↦ rw dropped (IsDistinct-keep p xs d.1)
]

distinct : Text → Bool
distinct [] = true
distinct (x ∷ xs) = not (contains x xs) && distinct xs

distinct→IsDistinct : (xs : Text) → distinct xs ≡ true → IsDistinct xs
unfolding distinct
distinct→IsDistinct [] h = tt
distinct→IsDistinct (x ∷ xs) h = (ground arith, distinct→IsDistinct xs (ground arith))

le-larger : (largest : Option ℕ) (n m : ℕ) → larger largest n ≤ m → n ≤ m
le-larger none n m h = h
le-larger (some l) n m h = ground arith

all_mono :
    (p q : ℕ → Bool) (s : Text)
    → ((c : ℕ) → p c ≡ true → q c ≡ true)
    → all p s ≡ true
    → all q s ≡ true
all_mono p q [] h a = refl
all_mono p q (c ∷ s) h a = ground (arith, h c, all_mono p q s h)

module _ (codec : Codec) where
  contains-candidate_alphabet :
      (encodings : List String) (c : ℕ)
      → contains c (candidate_alphabet codec encodings)
        ≡ (contains c safe_text_alphabet && all (encodes_to_one_byte codec c) encodings)
  unfolding candidate_alphabet
  contains-candidate_alphabet encodings c =
      contains-keep (accepted codec encodings) c safe_text_alphabet

  -- the character is one byte under the encoding
  abbrev pub IsOneByte : ℕ → String → Type 0
  IsOneByte c e = (b : ℕ) × (codec e (c ∷ []) ≡ some (b ∷ []))

  one_byte : (bytes : List ℕ) → (length bytes == 1) ≡ true → (b : ℕ) × (bytes ≡ b ∷ [])
  one_byte [] h = cc
  one_byte (b ∷ []) h = (b, refl)
  one_byte (b ∷ c ∷ bytes) h = absurd (ground (arith, h))

  encodes_to_one_byte→IsOneByte :
      (c : ℕ) (e : String) → encodes_to_one_byte codec c e ≡ true → IsOneByte c e
  encodes_to_one_byte→IsOneByte c e h = elim (Option-cases (codec e (c ∷ []))) [
    | inl unknown ↦ absurd (ground (arith, h, unknown))
    | inr (bytes, known) ↦
        let one = one_byte bytes (ground (arith, h, known)) in (one.0, known ∙ ap some one.1)
  ]

  accepted→IsOneByte :
      (c : ℕ) (encodings : List String)
      → accepted codec encodings c ≡ true
      → All (IsOneByte c) encodings
  accepted→IsOneByte c [] h = tt
  accepted→IsOneByte c (e ∷ encodings) h = (
    encodes_to_one_byte→IsOneByte c e (ground (arith, h)),
    accepted→IsOneByte c encodings (ground (arith, h)),
  )

  IsOneByte→accepted :
      (c : ℕ) (encodings : List String)
      → All (IsOneByte c) encodings
      → accepted codec encodings c ≡ true
  IsOneByte→accepted c [] h = refl
  IsOneByte→accepted c (e ∷ encodings) (first, rest) =
      ground (arith, first.1, IsOneByte→accepted c encodings rest)

  -- A character is in the candidate alphabet exactly if it is one of the 36 safe characters and
  -- every participating encoding gives a single byte for it.
  pub contains-candidate_alphabet_iff :
      (encodings : List String) (c : ℕ)
      → (contains c (candidate_alphabet codec encodings) ≡ true)
        ↔ ((contains c safe_text_alphabet ≡ true) × All (IsOneByte c) encodings)
  contains-candidate_alphabet_iff encodings c =
      let safe = contains c safe_text_alphabet in
      let both = contains-candidate_alphabet encodings c in
      (
        λ h.
            let split = &&-parts safe (accepted codec encodings c) (sym both ∙ h) in
            (split.0, accepted→IsOneByte c encodings split.1),
        λ h. ground (arith, both, h.0, IsOneByte→accepted c encodings h.1),
      )

  pub candidate_alphabet-IsDistinct :
      (encodings : List String) → IsDistinct (candidate_alphabet codec encodings)
  unfolding candidate_alphabet distinct
  candidate_alphabet-IsDistinct encodings =
      IsDistinct-keep (accepted codec encodings) safe_text_alphabet
        (distinct→IsDistinct safe_text_alphabet refl)

  -- One participating encoding that encodes nothing empties the alphabet.
  abbrev pub IsUnproven : String → Type 0
  IsUnproven e = (c : ℕ) → codec e (c ∷ []) ≡ none

  accepted-unproven :
      (before after : List String) (e : String) (c : ℕ)
      → IsUnproven e
      → accepted codec (before ++ (e ∷ after)) c ≡ false
  accepted-unproven [] after e c h = ground (arith, h c)
  accepted-unproven (x ∷ before) after e c h = ground (arith, accepted-unproven before after e c h)

  keep-none : (p : ℕ → Bool) (xs : Text) → ((c : ℕ) → p c ≡ false) → keep p xs ≡ []
  keep-none p [] h = refl
  keep-none p (x ∷ xs) h = rw (h x) (keep-none p xs h)

  -- If any participating encoding is unknown to the codec registry, the alphabet is empty.
  pub candidate_alphabet-unproven :
      (before after : List String) (e : String)
      → IsUnproven e
      → candidate_alphabet codec (before ++ (e ∷ after)) ≡ []
  unfolding candidate_alphabet
  candidate_alphabet-unproven before after e h =
      keep-none (accepted codec (before ++ (e ∷ after))) safe_text_alphabet
        (λ c. accepted-unproven before after e c h)

  -- The bytes of a value under each encoding, where all of them encode it.
  abbrev pub FitsAll : Text → ℕ → List String → Type 0
  FitsAll value limit =
      All (λ e. (n : ℕ) × (encoded_byte_length codec value e ≡ some n) × (n ≤ limit))

  max_length_loop-le :
      (value : Text) (l : ℕ) (encodings : List String) (m : ℕ)
      → max_length_loop codec value (some l) encodings ≡ some m
      → l ≤ m
  unfolding max_length_loop
  max_length_loop-le value l [] m h = ground arith
  max_length_loop-le value l (e ∷ encodings) m h =
      elim (Option-cases (encoded_byte_length codec value e)) [
        | inl unknown ↦ ground arith
        | inr (n, known) ↦
            ground (arith, max_length_loop-le value (if ltb l n then n else l) encodings m)
      ]

  max_length_loop-FitsAll :
      (value : Text) (largest : Option ℕ) (encodings : List String) (m : ℕ)
      → max_length_loop codec value largest encodings ≡ some m
      → FitsAll value m encodings
  unfolding max_length_loop
  max_length_loop-FitsAll value largest [] m h = tt
  max_length_loop-FitsAll value largest (e ∷ encodings) m h =
      elim (Option-cases (encoded_byte_length codec value e)) [
        | inl unknown ↦ absurd (ground arith)
        | inr (n, known) ↦
            let rest : max_length_loop codec value (some (larger largest n)) encodings ≡ some m =
              ground arith in
            let le = max_length_loop-le value (larger largest n) encodings m rest in
            (
              (n, known, le-larger largest n m le),
              max_length_loop-FitsAll value (some (larger largest n)) encodings m rest,
            )
      ]

  -- A returned maximum bounds the encoded length of the value under every participating encoding,
  -- and each of them can encode the value.
  pub max_encoded_byte_length-FitsAll :
      (value : Text) (encodings : List String) (m : ℕ)
      → max_encoded_byte_length codec value encodings ≡ some m
      → FitsAll value m encodings
  unfolding max_encoded_byte_length
  max_encoded_byte_length-FitsAll value encodings m h =
      max_length_loop-FitsAll value none encodings m h

  -- A codec that encodes a text character by character, as the single-byte code pages do.
  abbrev pub IsCharwise : String → Type 0
  IsCharwise e =
      (codec e [] ≡ some [])
      × ((c : ℕ) (s : Text) (b bs : List ℕ)
          → codec e (c ∷ []) ≡ some b
          → codec e s ≡ some bs
          → codec e (c ∷ s) ≡ some (b ++ bs))

  one_byte_each :
      (e : String) (s : Text)
      → IsCharwise e
      → all (λ c. encodes_to_one_byte codec c e) s ≡ true
      → (bs : List ℕ) × (codec e s ≡ some bs) × (length bs ≡ length s)
  one_byte_each e [] h a = ([], h.0, refl)
  one_byte_each e (c ∷ s) h a = elim (Option-cases (codec e (c ∷ []))) [
    | inl unknown ↦ absurd (ground arith)
    | inr (b, known) ↦
        let (bs, rest, len) = one_byte_each e s h (ground arith) in
        let one : length b ≡ 1 = ground arith in
        (b ++ bs, h.1 c s b bs known rest, length-append b bs ∙ omega (arith, one, len))
  ]

  encoded_byte_length-one_byte :
      (e : String) (s : Text)
      → IsCharwise e
      → all (λ c. encodes_to_one_byte codec c e) s ≡ true
      → encoded_byte_length codec s e ≡ some (length s)
  unfolding encoded_byte_length
  encoded_byte_length-one_byte e s h a =
      let (bs, known, len) = one_byte_each e s h a in ground (arith, known, len)

  -- the encodings one by one, from the test of the characters one by one
  each_encoding :
      (encodings : List String) (s : Text)
      → all (accepted codec encodings) s ≡ true
      → All (λ e. all (λ c. encodes_to_one_byte codec c e) s ≡ true) encodings
  each_encoding [] s a = tt
  each_encoding (e ∷ encodings) s a = (
    all_mono (accepted codec (e ∷ encodings)) (λ c. encodes_to_one_byte codec c e) s
        (λ c h. ground arith) a,
    each_encoding encodings s (
        all_mono (accepted codec (e ∷ encodings)) (accepted codec encodings) s (λ c h. ground arith)
          a),
  )

  max_length_loop-one_byte :
      (s : Text) (encodings : List String)
      → All IsCharwise encodings
      → All (λ e. all (λ c. encodes_to_one_byte codec c e) s ≡ true) encodings
      → max_length_loop codec s (some (length s)) encodings ≡ some (length s)
  unfolding max_length_loop
  max_length_loop-one_byte s [] h a = refl
  max_length_loop-one_byte s (e ∷ encodings) h a = ground (
    arith,
    encoded_byte_length-one_byte e s h.0 a.0,
    max_length_loop-one_byte s encodings h.1 a.1,
  )

  -- Where every participating encoding works character by character, the longest encoding of a
  -- token over the candidate alphabet is its number of characters.
  pub max_encoded_byte_length-token :
      (e : String) (encodings : List String) (t : Text)
      → All IsCharwise (e ∷ encodings)
      → is_safe_token t (candidate_alphabet codec (e ∷ encodings)) ≡ true
      → max_encoded_byte_length codec t (e ∷ encodings) ≡ some (length t)
  unfolding max_encoded_byte_length max_length_loop
  max_encoded_byte_length-token e encodings t h safe =
      let over = (is_safe_token_iff t (candidate_alphabet codec (e ∷ encodings))).0 safe in
      let each = each_encoding (e ∷ encodings) t (
        all_mono (λ c. contains c (candidate_alphabet codec (e ∷ encodings)))
          (accepted codec (e ∷ encodings)) t
          (λ c m. ground (arith, contains-candidate_alphabet (e ∷ encodings) c)) over.1) in
      ground (
        arith,
        encoded_byte_length-one_byte e t h.0 each.0,
        max_length_loop-one_byte t encodings h.1 each.1,
      )
