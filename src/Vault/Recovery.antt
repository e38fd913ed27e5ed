-- ===== src/Vault/Recovery.antt =====
-- vault/mappings.py: the rows of memo recovery and the parameters of temporal domains.
use dbf_anonymizer.Prelude.{
  ℕ, Bool, not, ◌&&◌, ◌||◌, Option, none, some, List, ◌∷◌, if◌then◌else◌, any, find, ℤ, pos, ltb_ℤ,
  eqb_ℤ, Text, text_eq, codes,
}
use dbf_anonymizer.Errors.{value_error, type_error, Result, ok, err, ◌>>=◌, ◌>>◌, raise_if}
use dbf_anonymizer.Values.{Value, integer, text, bytes, bytearray}
use dbf_anonymizer.Vault.{
  Field, Cell, integer_cell, text_cell, blob_cell, MemoRecovery, TemporalParameter, Tables,
  VaultDatabase, validate_token, vault_state_failure, internal_connection,
  require_active_transaction,
}
use dbf_anonymizer.Vault.Mappings.{has_domain}

-- VAULT_PAYLOAD_KIND_TEXT and VAULT_PAYLOAD_KIND_BINARY
abbrev pub payload_text : Text
payload_text = codes "TEXT"

abbrev pub payload_binary : Text
payload_binary = codes "BINARY"

-- the PRIMARY KEY of `memo_recovery`
abbrev pub has_identity : Text → ℤ → Text → MemoRecovery → Bool
has_identity table_id physical_record_index field_id row =
    text_eq row.table_id table_id
    && (eqb_ℤ row.physical_record_index physical_record_index && text_eq row.field_id field_id)

-- the FOREIGN KEY to `fields (field_id, table_id)`
abbrev pub has_field : Text → Text → List Field → Bool
has_field field_id table_id rows =
    any (λ row. text_eq row.field_id field_id && text_eq row.table_id table_id) rows

-- `utf8 s` is `s.encode("utf-8")`; `none` stands for the UnicodeEncodeError (a ValueError) of a
-- lone surrogate
abbrev pub Utf8 : Type 0
Utf8 = Text → Option (List ℕ)

abbrev pub encoded : Option (List ℕ) → Result (List ℕ)
encoded none = err value_error
encoded (some blob) = ok blob

unfoldable pub memo_blob : Utf8 → Text → Value → Result (List ℕ)
memo_blob utf8 payload_kind (text s) =
    if text_eq payload_kind payload_text then encoded (utf8 s) else err value_error
memo_blob utf8 payload_kind (bytes b) =
    if text_eq payload_kind payload_text then err value_error else ok b
memo_blob utf8 payload_kind (bytearray b) =
    if text_eq payload_kind payload_text then err value_error else ok b
memo_blob utf8 payload_kind _ = err value_error

abbrev pub with_memo_row : Text → ℤ → Text → List ℕ → Text → Tables → Tables
with_memo_row table_id physical_record_index field_id blob payload_kind tables = record tables {
  memo_recovery =
      record {
        table_id = table_id;
        physical_record_index = physical_record_index;
        field_id = field_id;
        original_payload = blob_cell blob;
        payload_kind = text_cell payload_kind;
      }
      ∷ tables.memo_recovery;
}

-- the INSERT, with the PRIMARY KEY and the foreign key
abbrev pub insert_memo_row :
    Text → ℤ → Text → List ℕ → Text → VaultDatabase → Tables → Result (Unit {0} × VaultDatabase)
insert_memo_row table_id physical_record_index field_id blob payload_kind db tables = do
  raise_if
      (any (has_identity table_id physical_record_index field_id) tables.memo_recovery
        || not (has_field field_id table_id tables.fields))
      (vault_state_failure "MEMO_ROW_REJECTED")
  ok (
    tt,
    record db {
      tables = with_memo_row table_id physical_record_index field_id blob payload_kind tables;
    },
  )

unfoldable pub add_memo_recovery :
    Utf8 → Text → ℤ → Text → Value → Text → VaultDatabase → Result (Unit {0} × VaultDatabase)
unfolding require_active_transaction validate_token internal_connection memo_blob
add_memo_recovery utf8 table_id physical_record_index field_id payload payload_kind db = do
  require_active_transaction db
  validate_token table_id
  validate_token field_id
  raise_if (not (text_eq payload_kind payload_text || text_eq payload_kind payload_binary))
      value_error
  raise_if (ltb_ℤ physical_record_index (pos 0)) value_error
  blob ← memo_blob utf8 payload_kind payload
  tables ← internal_connection db
  insert_memo_row table_id physical_record_index field_id blob payload_kind db tables

-- the columns of the row, refused unless their storage classes are BLOB and TEXT
abbrev pub memo_columns : Cell → Cell → Result (List ℕ × Text)
memo_columns (blob_cell payload) (text_cell kind) = ok (payload, kind)
memo_columns _ _ = err (vault_state_failure "MEMO_ROW_CORRUPT")

unfoldable pub fetched_memo : Option MemoRecovery → Result (Option (List ℕ × Text))
fetched_memo none = ok none
fetched_memo (some row) = do
  columns ← memo_columns row.original_payload row.payload_kind
  ok (some columns)

unfoldable pub get_memo_recovery : VaultDatabase → Text → ℤ → Text → Result (Option (List ℕ × Text))
unfolding validate_token internal_connection fetched_memo
get_memo_recovery db table_id physical_record_index field_id = do
  validate_token table_id
  validate_token field_id
  raise_if (ltb_ℤ physical_record_index (pos 0)) value_error
  tables ← internal_connection db
  fetched_memo (find (has_identity table_id physical_record_index field_id) tables.memo_recovery)

abbrev pub of_domain : Text → TemporalParameter → Bool
of_domain domain_id row = text_eq row.domain_id domain_id

abbrev pub with_parameter : Text → ℤ → Tables → Tables
with_parameter domain_id offset_days tables = record tables {
  temporal_parameters =
      record { domain_id = domain_id; offset_days = integer_cell offset_days }
      ∷ tables.temporal_parameters;
}

-- the INSERT, with the PRIMARY KEY and the foreign key
abbrev pub insert_parameter : Text → ℤ → VaultDatabase → Tables → Result (Unit {0} × VaultDatabase)
insert_parameter domain_id offset_days db tables = do
  raise_if
      (any (of_domain domain_id) tables.temporal_parameters
        || not (has_domain domain_id tables.mapping_domains))
      (vault_state_failure "TEMPORAL_REJECTED")
  ok (tt, record db { tables = with_parameter domain_id offset_days tables })

unfoldable pub set_temporal_parameter :
    Text → Value → VaultDatabase → Result (Unit {0} × VaultDatabase)
unfolding require_active_transaction validate_token internal_connection
set_temporal_parameter domain_id (integer offset_days) db = do
  require_active_transaction db
  validate_token domain_id
  raise_if (eqb_ℤ offset_days (pos 0)) value_error
  tables ← internal_connection db
  insert_parameter domain_id offset_days db tables
set_temporal_parameter domain_id _ db = do
  require_active_transaction db
  validate_token domain_id
  err type_error

abbrev fetched_offset : Cell → Result (Option ℤ)
fetched_offset (integer_cell offset) = ok (some offset)
fetched_offset _ = err (vault_state_failure "TEMPORAL_STATE_INVALID")

unfoldable pub temporal_parameter : VaultDatabase → Text → Result (Option ℤ)
unfolding internal_connection
temporal_parameter db domain_id = do
  tables ← internal_connection db
  elim (find (of_domain domain_id) tables.temporal_parameters) [
    | none ↦ ok none
    | some row ↦ fetched_offset row.offset_days
  ]
