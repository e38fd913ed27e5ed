-- ===== src/Checks/TextChecks.antt =====
-- Runs of transforms/text.py and its theorems at small inputs.
use dbf_anonymizer.Prelude.{
  ℕ, ◌≡◌, ◌↔◌, ◌≤◌, refl, true, arith, All, List, [], ◌∷◌, length, none, some, pos, leb_ℤ, Text,
  codes, contains, String,
}
use dbf_anonymizer.Errors.{ok}
use dbf_anonymizer.Text.{
  Codec, safe_text_alphabet, candidate_alphabet, max_encoded_byte_length, token_space,
  token_space_at_least, token_at, token_index, is_safe_token,
}
use dbf_anonymizer.Text.Space.{geometric, token_space_at_least-eq_le}
use dbf_anonymizer.Text.Tokens.{token_index-token_at, token_at-token_index}
use dbf_anonymizer.Text.Alphabet.{
  IsOneByte, contains-candidate_alphabet_iff, max_encoded_byte_length-token,
  max_encoded_byte_length-FitsAll, FitsAll, IsCharwise,
}

abbrev bits : Text
bits = codes "01"

abbrev abc : Text
abc = codes "ABC"

third_of_two : token_at (pos 2) (pos 2) bits ≡ ok (codes "00")
unfolding token_at
third_of_two = refl

last_of_two : token_at (pos 5) (pos 2) bits ≡ ok (codes "11")
unfolding token_at
last_of_two = refl

index_of_cab : token_index (codes "CA") abc ≡ ok 9
unfolding token_index
index_of_cab = refl

space_of_three : token_space (pos 2) (pos 3) ≡ ok 12
unfolding token_space
space_of_three = refl

token_space_at_least-eq_le_example :
    token_space_at_least (pos 2) (pos 3) (pos 13) ≡ leb_ℤ (pos 13) (pos 12)
token_space_at_least-eq_le_example =
    token_space_at_least-eq_le (pos 2) (pos 3) (pos 13) 12 space_of_three

token_index-token_at_example :
    (t : Text) × (token_at (pos 9) (pos 2) abc ≡ ok t)
    × (token_index t abc ≡ ok 9)
    × (is_safe_token t abc ≡ true)
    × (length t ≤ 2)
unfolding geometric
token_index-token_at_example =
    token_index-token_at abc 2 9 (refl, (refl, (refl, tt))) (omega arith) (omega arith)

token_at-token_index_example :
    (index : ℕ) × (token_index (codes "CA") abc ≡ ok index)
    × (token_at (pos index) (pos 3) abc ≡ ok (codes "CA"))
unfolding is_safe_token
token_at-token_index_example =
    token_at-token_index abc (codes "CA") 3 (refl, (refl, (refl, tt))) refl (omega arith)

-- Every encoding with a name encodes each character to one byte, and the empty name is unknown.
abbrev codec : Codec
codec String.[] s = none
codec (String.◌∷◌ _ _) s = some s

-- The first encoding of this registry takes two bytes for each character.
abbrev doubled : Text → List ℕ
doubled [] = []
doubled (c ∷ s) = c ∷ 0 ∷ doubled s

abbrev mixed_codec : Codec
mixed_codec String.[] s = some (doubled s)
mixed_codec (String.◌∷◌ _ _) s = some s

all_kept : candidate_alphabet codec ("mazovia" ∷ "cp1250" ∷ []) ≡ safe_text_alphabet
unfolding candidate_alphabet
all_kept = refl

none_kept : candidate_alphabet mixed_codec ("cp1250" ∷ "" ∷ []) ≡ []
unfolding candidate_alphabet
none_kept = refl

longest : max_encoded_byte_length mixed_codec (codes "AB") ("cp1250" ∷ "" ∷ []) ≡ some 4
unfolding max_encoded_byte_length
longest = refl

contains-candidate_alphabet_iff_example :
    (contains b'A' (candidate_alphabet codec ("cp1250" ∷ [])) ≡ true)
    ↔ ((contains b'A' safe_text_alphabet ≡ true) × All (IsOneByte codec b'A') ("cp1250" ∷ []))
contains-candidate_alphabet_iff_example = contains-candidate_alphabet_iff codec ("cp1250" ∷ []) b'A'

charwise : IsCharwise codec "cp1250"
charwise = (refl, λ c s b bs one rest. cc)

max_encoded_byte_length-token_example :
    max_encoded_byte_length codec (codes "AB1") ("cp1250" ∷ []) ≡ some 3
unfolding is_safe_token candidate_alphabet
max_encoded_byte_length-token_example =
    max_encoded_byte_length-token codec "cp1250" [] (codes "AB1") (charwise, tt) refl

max_encoded_byte_length-FitsAll_example : FitsAll mixed_codec (codes "AB") 4 ("cp1250" ∷ "" ∷ [])
max_encoded_byte_length-FitsAll_example =
    max_encoded_byte_length-FitsAll mixed_codec (codes "AB") ("cp1250" ∷ "" ∷ []) 4 longest
