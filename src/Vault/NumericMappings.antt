-- ===== src/Vault/NumericMappings.antt =====
-- vault/mappings.py: the rows of numeric key domains, canonical integer text in both columns.
use dbf_anonymizer.Prelude.{
  Bool, not, ◌&&◌, ◌||◌, Option, none, some, List, [], ◌∷◌, if◌then◌else◌, any, find, keep, Text,
  text_eq,
}
use dbf_anonymizer.Errors.{Failure, value_error, Result, ok, err, ◌>>=◌, ◌>>◌, raise_if}
use dbf_anonymizer.CanonicalText.{is_canonical}
use dbf_anonymizer.Vault.{
  Cell, text_cell, NumericKeyMapping, Tables, VaultDatabase, validate_token, vault_state_failure,
  internal_connection, require_active_transaction,
}
use dbf_anonymizer.Vault.Mappings.{has_domain, holds_text, mapping_failure, text_lt}

-- the UNIQUE indexes of `numeric_key_mappings`
abbrev pub numeric_row_clashes : Text → Text → Text → List NumericKeyMapping → Bool
numeric_row_clashes domain_id original pseudonym rows =
    any
      (λ row.
        text_eq row.domain_id domain_id
        && (holds_text original row.original_value || holds_text pseudonym row.pseudonym_value))
      rows

unfoldable pub validate_canonical_numeric_text : Text → Result (Unit {0})
unfolding is_canonical
validate_canonical_numeric_text value = raise_if (not (is_canonical value)) value_error

abbrev pub with_numeric_row : Text → Text → Text → Tables → Tables
with_numeric_row domain_id original pseudonym tables = record tables {
  numeric_key_mappings =
      record {
        domain_id = domain_id;
        original_value = text_cell original;
        pseudonym_value = text_cell pseudonym;
      }
      ∷ tables.numeric_key_mappings;
}

-- the INSERT, with the constraints that SQLite enforces
abbrev pub insert_numeric_row :
    Text → Text → Text → VaultDatabase → Tables → Result (Unit {0} × VaultDatabase)
insert_numeric_row domain_id original pseudonym db tables = do
  raise_if
      (not (has_domain domain_id tables.mapping_domains)
        || numeric_row_clashes domain_id original pseudonym tables.numeric_key_mappings)
      (mapping_failure "MAPPING_BIJECTION_REJECTED")
  ok (tt, record db { tables = with_numeric_row domain_id original pseudonym tables })

unfoldable pub add_numeric_key_mapping :
    Text → Text → Text → VaultDatabase → Result (Unit {0} × VaultDatabase)
unfolding require_active_transaction validate_token internal_connection
    validate_canonical_numeric_text
add_numeric_key_mapping domain_id original_value pseudonym_value db = do
  require_active_transaction db
  validate_token domain_id
  validate_canonical_numeric_text original_value
  validate_canonical_numeric_text pseudonym_value
  tables ← internal_connection db
  insert_numeric_row domain_id original_value pseudonym_value db tables

abbrev pub numeric_mapping_corrupt : Failure
numeric_mapping_corrupt = vault_state_failure "NUMERIC_MAPPING_CORRUPT"

-- `_validated_numeric_row`, for cells of any storage class
unfoldable pub validated_numeric_row : Cell → Cell → Result (Text × Text)
unfolding is_canonical
validated_numeric_row (text_cell original) (text_cell pseudonym) =
    if is_canonical original && is_canonical pseudonym
    then ok (original, pseudonym)
    else err numeric_mapping_corrupt
validated_numeric_row _ _ = err numeric_mapping_corrupt

-- the one column that a lookup fetched, if it found a row
unfoldable pub fetched_numeric : Option Cell → Result (Option Text)
unfolding validated_numeric_row
fetched_numeric none = ok none
fetched_numeric (some cell) = do row ← validated_numeric_row cell cell; ok (some row.1)

abbrev pub with_original : Text → Text → NumericKeyMapping → Bool
with_original domain_id original row =
    text_eq row.domain_id domain_id && holds_text original row.original_value

abbrev pub with_pseudonym : Text → Text → NumericKeyMapping → Bool
with_pseudonym domain_id pseudonym row =
    text_eq row.domain_id domain_id && holds_text pseudonym row.pseudonym_value

abbrev pub pseudonym_of : Option NumericKeyMapping → Option Cell
pseudonym_of none = none
pseudonym_of (some row) = some row.pseudonym_value

abbrev pub original_of : Option NumericKeyMapping → Option Cell
original_of none = none
original_of (some row) = some row.original_value

-- the SELECT of each direction, with the checks on what it fetched
abbrev pub pseudonym_in : List NumericKeyMapping → Text → Text → Result (Option Text)
pseudonym_in rows domain_id original =
    fetched_numeric (pseudonym_of (find (with_original domain_id original) rows))

abbrev pub original_in : List NumericKeyMapping → Text → Text → Result (Option Text)
original_in rows domain_id pseudonym =
    fetched_numeric (original_of (find (with_pseudonym domain_id pseudonym) rows))

unfoldable pub get_numeric_pseudonym : VaultDatabase → Text → Text → Result (Option Text)
unfolding internal_connection
get_numeric_pseudonym db domain_id original_value = do
  tables ← internal_connection db
  pseudonym_in tables.numeric_key_mappings domain_id original_value

unfoldable pub get_numeric_original : VaultDatabase → Text → Text → Result (Option Text)
unfolding internal_connection
get_numeric_original db domain_id pseudonym_value = do
  tables ← internal_connection db
  original_in tables.numeric_key_mappings domain_id pseudonym_value

pub validated_rows : List NumericKeyMapping → Result (List (Text × Text))
unfolding validated_numeric_row
validated_rows [] = ok []
validated_rows (row ∷ rows) = do
  pair ← validated_numeric_row row.original_value row.pseudonym_value
  later ← validated_rows rows
  ok (pair ∷ later)

pub insert_row : Text × Text → List (Text × Text) → List (Text × Text)
insert_row row [] = row ∷ []
insert_row row (next ∷ rows) =
    if text_lt next.0 row.0 then next ∷ insert_row row rows else row ∷ next ∷ rows

-- `ORDER BY original_value`
pub by_original : List (Text × Text) → List (Text × Text)
unfolding insert_row
by_original [] = []
by_original (row ∷ rows) = insert_row row (by_original rows)

-- Every row is checked before the first one is used, so the rows are put in order after the check.
unfoldable pub numeric_mapping_rows : VaultDatabase → Text → Result (List (Text × Text))
unfolding internal_connection validated_rows by_original
numeric_mapping_rows db domain_id = do
  tables ← internal_connection db
  rows ← validated_rows (keep (λ row. text_eq row.domain_id domain_id) tables.numeric_key_mappings)
  ok (by_original rows)
