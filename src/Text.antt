-- ===== src/Text.antt =====
-- transforms/text.py: the model of the global text mapping domain. A `str` is the list of its code
-- points. The codec registry is a parameter: `codec encoding s` is `s.encode(encoding, "strict")`,
-- and `none` stands for the LookupError, UnicodeEncodeError or ValueError that the code catches.
pub mod Alphabet
pub mod Space
pub mod Digits
pub mod Tokens
use dbf_anonymizer.Prelude.{
  ℕ, zero, suc, ◌+◌, ◌-◌, ◌*◌, ◌/◌, ◌%◌, min, max, String, Bool, true, false, ◌&&◌, Option, none,
  some, List, [], ◌∷◌, reverse, ltb, leb, ◌==◌, if◌then◌else◌, length, get_or, all, keep, ℤ, pos,
  negsuc, leb_ℤ, Text, codes, contains,
}
use dbf_anonymizer.Errors.{Failure, value_error, Result, ok, err, ◌>>=◌}

abbrev pub Codec : Type 0
Codec = String → Text → Option (List ℕ)

-- SAFE_TEXT_ALPHABET
abbrev pub safe_text_alphabet : Text
safe_text_alphabet = codes "ABCDEFGHIJKLMNOPQRSTUVWXYZ0123456789"

-- `length if largest is None or length > largest else largest`
abbrev larger : Option ℕ → ℕ → ℕ
larger none n = n
larger (some m) n = if ltb m n then n else m

module _ (codec : Codec) where
  -- the encoding loop of `candidate_alphabet` for one character, with its `break`s
  abbrev pub encodes_to_one_byte : ℕ → String → Bool
  encodes_to_one_byte c e = elim (codec e (c ∷ [])) [
    | none ↦ false
    | some bytes ↦ length bytes == 1
  ]

  abbrev pub accepted : List String → ℕ → Bool
  accepted encodings c = all (encodes_to_one_byte c) encodings

  unfoldable pub candidate_alphabet : List String → Text
  candidate_alphabet encodings = keep (accepted encodings) safe_text_alphabet

  unfoldable pub encoded_byte_length : Text → String → Option ℕ
  encoded_byte_length value encoding = elim (codec encoding value) [
    | none ↦ none
    | some bytes ↦ some (length bytes)
  ]

  pub max_length_loop : Text → Option ℕ → List String → Option ℕ
  unfolding encoded_byte_length
  max_length_loop value largest [] = largest
  max_length_loop value largest (e ∷ encodings) = elim (encoded_byte_length value e) [
    | none ↦ none
    | some n ↦ max_length_loop value (some (larger largest n)) encodings
  ]

  unfoldable pub max_encoded_byte_length : Text → List String → Option ℕ
  unfolding max_length_loop
  max_encoded_byte_length value encodings = max_length_loop value none encodings

unfoldable pub reduced_strictest : Option ℕ → ℤ → Result ℕ
reduced_strictest previous (negsuc _) = err value_error
reduced_strictest none (pos width) = ok width
reduced_strictest (some p) (pos width) = ok (min p width)

-- `for _ in range(rounds): term *= base; total += term`, from `term` and `total`
pub space_loop : ℕ → ℕ → ℕ → ℕ → ℕ
space_loop zero base term total = total
space_loop (suc n) base term total = space_loop n base (term * base) (total + term * base)

unfoldable pub token_space : ℤ → ℤ → Result ℕ
unfolding space_loop
token_space (negsuc _) base = err value_error
token_space (pos max_width) (negsuc _) = err value_error
token_space (pos max_width) (pos zero) = err value_error
token_space (pos max_width) (pos (suc b)) = ok (space_loop max_width (suc b) 1 0)

at_least_loop : ℕ → ℕ → ℕ → ℕ → ℤ → Bool
at_least_loop zero base term total needed = false
at_least_loop (suc n) base term total needed =
    let later = at_least_loop n base (term * base) (total + term * base) needed in
    if leb_ℤ needed (pos (total + term * base)) then true else later

unfoldable pub token_space_at_least : ℤ → ℤ → ℤ → Bool
unfolding at_least_loop
token_space_at_least (pos (suc w)) (pos (suc b)) needed = at_least_loop (suc w) (suc b) 1 0 needed
token_space_at_least _ _ needed = leb_ℤ needed (pos 0)

unfoldable pub is_safe_token : Text → Text → Bool
is_safe_token [] alphabet = false
is_safe_token (c ∷ candidate) alphabet = all (λ x. contains x alphabet) (c ∷ candidate)

-- `alphabet.index(c)`, which the callers ask only of a character of the alphabet
pub index_of : ℕ → Text → ℕ
index_of c [] = 0
index_of c (x ∷ xs) = if x == c then 0 else suc (index_of c xs)

-- `for character in token: offset = offset * base + alphabet.index(character)`
pub offset_loop : Text → ℕ → Text → ℕ
unfolding index_of
offset_loop alphabet offset [] = offset
offset_loop alphabet offset (c ∷ token) =
    offset_loop alphabet (offset * length alphabet + index_of c alphabet) token

unfoldable pub token_index : Text → Text → Result ℕ
unfolding is_safe_token space_loop offset_loop
token_index token alphabet =
    if is_safe_token token alphabet
    then ok (space_loop (length token - 1) (length alphabet) 1 0 + offset_loop alphabet 0 token)
    else err value_error

-- the characters that the inner loop of `token_at` appends, in order
pub digits_loop : ℕ → ℕ → Text → Text
digits_loop zero offset alphabet = []
digits_loop (suc n) offset alphabet =
    get_or alphabet (offset % length alphabet) 0 ∷ digits_loop n (offset / length alphabet) alphabet

-- the outer loop of `token_at` over `length`, with the rounds that are left
pub token_at_loop : ℕ → ℕ → ℕ → ℕ → ℕ → Text → Result Text
unfolding digits_loop
token_at_loop zero len term cumulative index alphabet = err value_error
token_at_loop (suc n) len term cumulative index alphabet =
    let block = term * length alphabet in
    let later = token_at_loop n (len + 1) block (cumulative + block) index alphabet in
    if ltb index (cumulative + block)
    then ok (reverse (digits_loop len (index - cumulative) alphabet))
    else later

-- `0 <= index < space`, and the loop
pub token_at_within : ℤ → ℕ → ℕ → Text → Result Text
unfolding token_at_loop
token_at_within (negsuc _) width space alphabet = err value_error
token_at_within (pos index) width space alphabet =
    if ltb index space then token_at_loop width 1 1 0 index alphabet else err value_error

abbrev natural : ℤ → ℕ
natural (pos n) = n
natural (negsuc _) = 0

unfoldable pub token_at : ℤ → ℤ → Text → Result Text
unfolding token_space token_at_within
token_at index max_width alphabet = if ltb (length alphabet) 1 then err value_error else do
  space ← token_space max_width (pos (length alphabet))
  token_at_within index (natural max_width) space alphabet
