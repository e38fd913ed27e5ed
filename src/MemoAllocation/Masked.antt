-- ===== src/MemoAllocation/Masked.antt =====
-- vault/memo_allocation.py: the mask of a payload is not the payload.
use dbf_anonymizer.Prelude.{
  false-true, ℕ, ◌≡◌, ◌≢◌, sym, ◌∙◌, ap, inl, inr, false, Bool-cases, List, Text, text_eq,
  text_eq→eq, text_eq_refl,
}
use dbf_anonymizer.Errors.{ok, err, ok-injective}
use dbf_anonymizer.Values.{
  Value, null, boolean, integer, text, bytes, bytearray, date, datetime, other, is_null,
}
use dbf_anonymizer.Memo.{
  unsupported_memo, memo_safe_mask, text_mask_of, memo_text_mask, memo_text_mask_alt,
}
use dbf_anonymizer.MemoAllocation.{mask_for, mask_in_field, is_memo_field, is_binary_only}

-- a payload of the logical vocabulary, and the object that recovery returns for it
abbrev pub IsPayload : Value → Type 0
IsPayload (text _) = Unit
IsPayload (bytes _) = Unit
IsPayload (bytearray _) = Unit
IsPayload _ = ⊥

abbrev pub as_stored : Value → Value
as_stored (bytearray b) = bytes b
as_stored value = value

masks_differ : memo_text_mask_alt ≢ memo_text_mask
masks_differ h = cc

unsupported_ok : {v : Value} → err unsupported_memo ≢ ok v
unsupported_ok h = cc

text_mask_ne : (s : Text) → text_mask_of s ≢ s
text_mask_ne s h = elim (Bool-cases (text_eq s memo_text_mask)) [
  | inl primary ↦
      let e : s ≡ memo_text_mask = text_eq→eq s memo_text_mask primary in
      masks_differ (sym (rw primary) ∙ h ∙ e)
  | inr other_text ↦
      let e : memo_text_mask ≡ s = sym (rw other_text) ∙ h in
      false-true
        (sym other_text ∙ ap (λ x. text_eq x memo_text_mask) (sym e) ∙ text_eq_refl memo_text_mask)
]

text_injective : {a b : Text} → text a ≡ text b → a ≡ b
text_injective h = cc

bytes_injective : {a b : List ℕ} → bytes a ≡ bytes b → a ≡ b
bytes_injective h = cc

-- The mask of a payload is another object of its kind.
pub memo_safe_mask-ne :
    (value mask : Value) → IsPayload value → memo_safe_mask value ≡ ok mask → mask ≢ as_stored value
unfolding memo_safe_mask
memo_safe_mask-ne (text s) mask p h e = text_mask_ne s (text_injective (ok-injective h ∙ e))
memo_safe_mask-ne (bytes b) mask p h e = text_mask_ne b (bytes_injective (ok-injective h ∙ e))
memo_safe_mask-ne (bytearray b) mask p h e = text_mask_ne b (bytes_injective (ok-injective h ∙ e))
memo_safe_mask-ne null mask p h e = absurd p
memo_safe_mask-ne (boolean b) mask p h e = absurd p
memo_safe_mask-ne (integer i) mask p h e = absurd p
memo_safe_mask-ne (date d) mask p h e = absurd p
memo_safe_mask-ne (datetime d t) mask p h e = absurd p
memo_safe_mask-ne other mask p h e = absurd p

mask_in_field-safe :
    (dbf_type : Text) (value mask : Value)
    → IsPayload value
    → mask_in_field dbf_type value ≡ ok mask
    → memo_safe_mask value ≡ ok mask
mask_in_field-safe dbf_type (text s) mask p h = elim (Bool-cases (is_binary_only dbf_type)) [
  | inl binary ↦ absurd (unsupported_ok {v = mask} (sym (rw binary) ∙ h))
  | inr admits ↦ sym (rw admits) ∙ h
]
mask_in_field-safe dbf_type (bytes b) mask p h = h
mask_in_field-safe dbf_type (bytearray b) mask p h = h
mask_in_field-safe dbf_type null mask p h = absurd p
mask_in_field-safe dbf_type (boolean b) mask p h = absurd p
mask_in_field-safe dbf_type (integer i) mask p h = absurd p
mask_in_field-safe dbf_type (date d) mask p h = absurd p
mask_in_field-safe dbf_type (datetime d t) mask p h = absurd p
mask_in_field-safe dbf_type other mask p h = absurd p

pub mask_for-safe :
    (dbf_type : Text) (value mask : Value)
    → IsPayload value
    → mask_for dbf_type value ≡ ok mask
    → memo_safe_mask value ≡ ok mask
unfolding mask_for
mask_for-safe dbf_type value mask p h = elim (Bool-cases (is_memo_field dbf_type)) [
  | inl field ↦ mask_in_field-safe dbf_type value mask p (sym (rw field) ∙ h)
  | inr foreign ↦ absurd (unsupported_ok {v = mask} (sym (rw foreign) ∙ h))
]

-- The mask of a payload is an object, not NULL.
pub memo_safe_mask_value :
    (value mask : Value) → IsPayload value → memo_safe_mask value ≡ ok mask → is_null mask ≡ false
unfolding memo_safe_mask
memo_safe_mask_value (text s) mask p h = ap is_null (sym (ok-injective h))
memo_safe_mask_value (bytes b) mask p h = ap is_null (sym (ok-injective h))
memo_safe_mask_value (bytearray b) mask p h = ap is_null (sym (ok-injective h))
memo_safe_mask_value null mask p h = absurd p
memo_safe_mask_value (boolean b) mask p h = absurd p
memo_safe_mask_value (integer i) mask p h = absurd p
memo_safe_mask_value (date d) mask p h = absurd p
memo_safe_mask_value (datetime d t) mask p h = absurd p
memo_safe_mask_value other mask p h = absurd p
