-- ===== src/Memo.antt =====
-- transforms/memo.py: the safe masks of memo payloads.
use dbf_anonymizer.Prelude.{ℕ, Bool, true, false, ◌||◌, if◌then◌else◌, List, Text, text_eq, codes}
use dbf_anonymizer.Errors.{Failure, mapping_error, mapping_constraint_infeasible, Result, ok, err}
use dbf_anonymizer.Values.{Value, null, text, bytes, bytearray}

-- MEMO_TEXT_MASK, MEMO_TEXT_MASK_ALT, and their bytes, MEMO_BINARY_MASK and MEMO_BINARY_MASK_ALT
abbrev pub memo_text_mask : Text
memo_text_mask = codes "[MASKED-MEMO]"

abbrev pub memo_text_mask_alt : Text
memo_text_mask_alt = codes "[MASKED-MEMO-ALT]"

abbrev pub memo_binary_mask : List ℕ
memo_binary_mask = codes "[MASKED-MEMO]"

abbrev pub memo_binary_mask_alt : List ℕ
memo_binary_mask_alt = codes "[MASKED-MEMO-ALT]"

abbrev pub unsupported_memo : Failure
unsupported_memo =
    mapping_error mapping_constraint_infeasible "transform" "MEMO_UNSUPPORTED_REPRESENTATION"

unfoldable pub is_memo_logical_value : Value → Bool
is_memo_logical_value null = true
is_memo_logical_value (text _) = true
is_memo_logical_value (bytes _) = true
is_memo_logical_value (bytearray _) = true
is_memo_logical_value _ = false

unfoldable pub memo_payload_kind : Value → Result Text
memo_payload_kind (text _) = ok (codes "TEXT")
memo_payload_kind (bytes _) = ok (codes "BINARY")
memo_payload_kind (bytearray _) = ok (codes "BINARY")
memo_payload_kind _ = err unsupported_memo

-- `bytes == bytes`
abbrev pub bytes_eq : List ℕ → List ℕ → Bool
bytes_eq a b = text_eq a b

abbrev pub text_mask_of : Text → Text
text_mask_of s = if text_eq s memo_text_mask then memo_text_mask_alt else memo_text_mask

abbrev pub binary_mask_of : List ℕ → List ℕ
binary_mask_of b = if bytes_eq b memo_binary_mask then memo_binary_mask_alt else memo_binary_mask

unfoldable pub memo_safe_mask : Value → Result Value
memo_safe_mask null = ok null
memo_safe_mask (text s) = ok (text (text_mask_of s))
memo_safe_mask (bytes b) = ok (bytes (binary_mask_of b))
memo_safe_mask (bytearray b) = ok (bytes (binary_mask_of b))
memo_safe_mask _ = err unsupported_memo

unfoldable pub memo_requires_binary : Text → Result Bool
memo_requires_binary dbf_type =
    if text_eq dbf_type (codes "G") || text_eq dbf_type (codes "P")
    then ok true
    else if text_eq dbf_type (codes "M")
    then ok false
    else err unsupported_memo
