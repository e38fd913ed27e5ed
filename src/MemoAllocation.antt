-- ===== src/MemoAllocation.antt =====
-- vault/memo_allocation.py: a memo payload is stored first and masked then. UTF-8 is a parameter:
-- `utf8` encodes, `decode` decodes, and `none` stands for the UnicodeError.
pub mod Masked
pub mod Stored
pub mod Recovered
use dbf_anonymizer.Prelude.{
  ℕ, Bool, true, false, not, ◌&&◌, ◌||◌, Option, none, some, List, if◌then◌else◌, ℤ, Text, text_eq,
  codes,
}
use dbf_anonymizer.Errors.{Failure, value_error, Result, ok, err, ◌>>=◌, ◌>>◌}
use dbf_anonymizer.Values.{
  Value, null, boolean, integer, text, bytes, bytearray, date, datetime, other, is_null,
}
use dbf_anonymizer.Memo.{unsupported_memo, memo_safe_mask, bytes_eq}
use dbf_anonymizer.Vault.{VaultDatabase, Faults, vault_state_failure, in_transaction}
use dbf_anonymizer.Vault.Recovery.{
  Utf8, payload_text, payload_binary, add_memo_recovery, get_memo_recovery,
}

abbrev pub recovery_invalid : Failure
recovery_invalid = vault_state_failure "MEMO_RECOVERY_INVALID"

abbrev pub identity_conflict : Failure
identity_conflict = vault_state_failure "MEMO_IDENTITY_CONFLICT"

abbrev pub is_binary_only : Text → Bool
is_binary_only dbf_type = text_eq dbf_type (codes "G") || text_eq dbf_type (codes "P")

-- MEMO_FIELD_TYPES
abbrev pub is_memo_field : Text → Bool
is_memo_field dbf_type = text_eq dbf_type (codes "M") || is_binary_only dbf_type

abbrev pub mask_in_field : Text → Value → Result Value
mask_in_field dbf_type null = ok null
mask_in_field dbf_type (text s) =
    if is_binary_only dbf_type then err unsupported_memo else memo_safe_mask (text s)
mask_in_field dbf_type (bytes b) = memo_safe_mask (bytes b)
mask_in_field dbf_type (bytearray b) = memo_safe_mask (bytearray b)
mask_in_field dbf_type _ = err unsupported_memo

-- `_mask_for`
unfoldable pub mask_for : Text → Value → Result Value
mask_for dbf_type value =
    if is_memo_field dbf_type then mask_in_field dbf_type value else err unsupported_memo

unfoldable pub mask_memo_value : Text → Value → Result Value
unfolding mask_for
mask_memo_value dbf_type value = mask_for dbf_type value

-- `value.encode("utf-8")`, whose UnicodeEncodeError is a ValueError, compared with the stored image
abbrev pub same_image : List ℕ → Option (List ℕ) → Result Bool
same_image payload none = err value_error
same_image payload (some image) = ok (bytes_eq payload image)

-- whether the row that is there is the same payload of the same kind
abbrev pub same_payload : Utf8 → Value → List ℕ × Text → Result Bool
same_payload utf8 (text s) (payload, kind) =
    if text_eq kind payload_text then same_image payload (utf8 s) else ok false
same_payload utf8 (bytes b) (payload, kind) = ok (text_eq kind payload_binary && bytes_eq payload b)
same_payload utf8 (bytearray b) (payload, kind) =
    ok (text_eq kind payload_binary && bytes_eq payload b)
same_payload utf8 _ row = err unsupported_memo

abbrev pub kind_of : Value → Text
kind_of (text s) = payload_text
kind_of _ = payload_binary

-- The identity of a memo value: the table, the physical record and the field.
pub record MemoIdentity : Type 0 where
  pub table_id : Text
  pub physical_record_index : ℤ
  pub field_id : Text

abbrev pub reuse_or_refuse : VaultDatabase → Bool → Result (Unit {0} × VaultDatabase)
reuse_or_refuse db true = ok (tt, db)
reuse_or_refuse db false = err identity_conflict

abbrev pub stored_once :
    Utf8
    → MemoIdentity
    → Value
    → VaultDatabase
    → Option (List ℕ × Text)
    → Result (Unit {0} × VaultDatabase)
stored_once utf8 key value db (some existing) = do
  same ← same_payload utf8 value existing
  reuse_or_refuse db same
stored_once utf8 key value db none =
    add_memo_recovery utf8 key.table_id key.physical_record_index key.field_id value (kind_of value)
      db

-- the body of the transaction
unfoldable pub store_memo :
    Utf8 → MemoIdentity → Value → VaultDatabase → Result (Unit {0} × VaultDatabase)
unfolding get_memo_recovery add_memo_recovery
store_memo utf8 key value db = do
  existing ← get_memo_recovery db key.table_id key.physical_record_index key.field_id
  stored_once utf8 key value db existing

abbrev pub mask_after : Value → Result (Unit {0}) × VaultDatabase → Result Value × VaultDatabase
mask_after mask (err failure, db) = (err failure, db)
mask_after mask (ok _, db) = (ok mask, db)

abbrev pub persist_masked :
    Utf8
    → Faults
    → MemoIdentity
    → Value
    → VaultDatabase
    → Result Value
    → Result Value × VaultDatabase
persist_masked utf8 faults key value db (err failure) = (err failure, db)
persist_masked utf8 faults key value db (ok mask) =
    if is_null mask
    then (ok null, db)
    else mask_after mask (in_transaction faults (store_memo utf8 key value) db)

unfoldable pub persist_memo_recovery :
    Utf8 → Faults → MemoIdentity → Text → Value → VaultDatabase → Result Value × VaultDatabase
unfolding mask_for store_memo in_transaction
persist_memo_recovery utf8 faults key dbf_type value db =
    persist_masked utf8 faults key value db (mask_for dbf_type value)

abbrev pub decoded : Option Text → Result (Option Value)
decoded none = err recovery_invalid
decoded (some s) = ok (some (text s))

abbrev pub recovered_row : (List ℕ → Option Text) → Option (List ℕ × Text) → Result (Option Value)
recovered_row decode none = ok none
recovered_row decode (some (payload, kind)) =
    if text_eq kind payload_text
    then decoded (decode payload)
    else (if text_eq kind payload_binary then ok (some (bytes payload)) else err recovery_invalid)

unfoldable pub recover_memo_value :
    (List ℕ → Option Text) → MemoIdentity → VaultDatabase → Result (Option Value)
unfolding get_memo_recovery
recover_memo_value decode key db = do
  row ← get_memo_recovery db key.table_id key.physical_record_index key.field_id
  recovered_row decode row
