-- ===== src/Vault/Mappings.antt =====
-- vault/mappings.py: mapping domains and the reversible rows of text and numeric key domains. A
-- constraint of the schema that SQLite refuses is the IntegrityError that the code translates.
use dbf_anonymizer.Prelude.{
  String, Bool, true, false, not, if◌then◌else◌, ltb, ◌==◌, ◌&&◌, ◌||◌, Option, none, some, List,
  [], ◌∷◌, any, find, ℤ, pos, negsuc, Text, text_eq, codes, keep,
}
use dbf_anonymizer.Errors.{
  Failure, mapping_error, mapping_conflict, value_error, Result, ok, err, ◌>>=◌, ◌>>◌, raise_if,
}
use dbf_anonymizer.Vault.{
  Cell, integer_cell, text_cell, MappingDomain, TextMapping, Tables, VaultDatabase, validate_token,
  vault_state_failure, internal_connection, require_active_transaction,
}

-- VAULT_TABLE_DOMAIN_KIND_TEXT, _NUMERIC_KEY and _TEMPORAL
abbrev pub kind_text : Text
kind_text = codes "TEXT"

abbrev pub kind_numeric_key : Text
kind_numeric_key = codes "NUMERIC_KEY"

abbrev pub kind_temporal : Text
kind_temporal = codes "TEMPORAL"

abbrev pub mapping_failure : String → Failure
mapping_failure detail_code = mapping_error mapping_conflict "vault" detail_code

-- `column = ?` for a TEXT parameter
abbrev pub holds_text : Text → Cell → Bool
holds_text s (text_cell t) = text_eq t s
holds_text s _ = false

abbrev pub has_domain : Text → List MappingDomain → Bool
has_domain domain_id rows = any (λ row. text_eq row.domain_id domain_id) rows

abbrev pub validate_optional : Option Text → Result (Unit {0})
validate_optional none = ok tt
validate_optional (some descriptor) = validate_token descriptor

abbrev pub domain_row : Text → Text → Option Text → Option Text → MappingDomain
domain_row domain_id domain_kind normalization relational_role = record {
  domain_id = domain_id;
  domain_kind = domain_kind;
  normalization = normalization;
  relational_role = relational_role;
}

abbrev pub with_domain : MappingDomain → Tables → Tables
with_domain row tables = record tables { mapping_domains = row ∷ tables.mapping_domains }

-- the INSERT, with the PRIMARY KEY
abbrev pub insert_domain : MappingDomain → VaultDatabase → Tables → Result (Text × VaultDatabase)
insert_domain row db tables = do
  raise_if (has_domain row.domain_id tables.mapping_domains) (vault_state_failure "DOMAIN_REJECTED")
  ok (row.domain_id, record db { tables = with_domain row tables })

-- The identifier is the caller's: all of the modelled callers pass one.
unfoldable pub create_domain :
    Text → Option Text → Option Text → Text → VaultDatabase → Result (Text × VaultDatabase)
unfolding require_active_transaction validate_token internal_connection
create_domain domain_kind normalization relational_role domain_id db = do
  require_active_transaction db
  raise_if
      (not (
        text_eq domain_kind kind_text
        || (text_eq domain_kind kind_numeric_key || text_eq domain_kind kind_temporal)))
      value_error
  validate_token domain_id
  validate_optional normalization
  validate_optional relational_role
  tables ← internal_connection db
  insert_domain (domain_row domain_id domain_kind normalization relational_role) db tables

-- The order of the rows is not modelled.
unfoldable pub mapping_domains : VaultDatabase → Result (List MappingDomain)
unfolding internal_connection
mapping_domains db = do tables ← internal_connection db; ok tables.mapping_domains

-- the UNIQUE indexes of `text_mappings`, and its foreign key
text_row_clashes : Text → Text → Text → List TextMapping → Bool
text_row_clashes domain_id original pseudonym rows =
    any
      (λ row.
        text_eq row.domain_id domain_id
        && (holds_text original row.original_value || holds_text pseudonym row.pseudonym_value))
      rows

unfoldable pub add_text_mapping :
    Text → Text → Text → ℤ → VaultDatabase → Result (Unit {0} × VaultDatabase)
unfolding require_active_transaction validate_token internal_connection text_row_clashes
add_text_mapping domain_id original_value pseudonym_value (negsuc n) db = do
  require_active_transaction db
  validate_token domain_id
  err value_error
add_text_mapping domain_id original_value pseudonym_value (pos logical_byte_length) db = do
  require_active_transaction db
  validate_token domain_id
  tables ← internal_connection db
  raise_if
      (not (has_domain domain_id tables.mapping_domains)
        || text_row_clashes domain_id original_value pseudonym_value tables.text_mappings)
      (mapping_failure "MAPPING_BIJECTION_REJECTED")
  ok (
    tt,
    record db {
      tables = record tables {
        text_mappings =
            record {
              domain_id = domain_id;
              original_value = text_cell original_value;
              pseudonym_value = text_cell pseudonym_value;
              logical_byte_length = integer_cell (pos logical_byte_length);
            }
            ∷ tables.text_mappings;
      };
    },
  )

-- the one column that a lookup fetched, refused unless its storage class is TEXT
abbrev pub fetched_text : Failure → Cell → Result (Option Text)
fetched_text corrupt (text_cell value) = ok (some value)
fetched_text corrupt _ = err corrupt

abbrev pub text_mapping_corrupt : Failure
text_mapping_corrupt = vault_state_failure "TEXT_MAPPING_CORRUPT"

unfoldable pub get_text_pseudonym : VaultDatabase → Text → Text → Result (Option Text)
unfolding internal_connection
get_text_pseudonym db domain_id original_value = do
  tables ← internal_connection db
  elim (find
      (λ row. text_eq row.domain_id domain_id && holds_text original_value row.original_value)
      tables.text_mappings) [
        | none ↦ ok none
        | some row ↦ fetched_text text_mapping_corrupt row.pseudonym_value
      ]

unfoldable pub get_text_original : VaultDatabase → Text → Text → Result (Option Text)
unfolding internal_connection
get_text_original db domain_id pseudonym_value = do
  tables ← internal_connection db
  elim (find
      (λ row. text_eq row.domain_id domain_id && holds_text pseudonym_value row.pseudonym_value)
      tables.text_mappings) [
        | none ↦ ok none
        | some row ↦ fetched_text text_mapping_corrupt row.original_value
      ]

abbrev text_row_of : Cell → Cell → Cell → Result (Text × Text × ℤ)
text_row_of (text_cell original) (text_cell pseudonym) (integer_cell width) =
    ok (original, pseudonym, width)
text_row_of _ _ _ = err text_mapping_corrupt

validated_text_rows : List TextMapping → Result (List (Text × Text × ℤ))
validated_text_rows [] = ok []
validated_text_rows (row ∷ rows) = do
  columns ← text_row_of row.original_value row.pseudonym_value row.logical_byte_length
  later ← validated_text_rows rows
  ok (columns ∷ later)

-- SQLite's order of texts, by their code points
abbrev pub text_lt : Text → Text → Bool
text_lt [] [] = false
text_lt [] (c ∷ cs) = true
text_lt (b ∷ bs) [] = false
text_lt (b ∷ bs) (c ∷ cs) = ltb b c || (b == c && text_lt bs cs)

insert_text_row : Text × Text × ℤ → List (Text × Text × ℤ) → List (Text × Text × ℤ)
insert_text_row row [] = row ∷ []
insert_text_row row (next ∷ rows) =
    if text_lt next.0 row.0 then next ∷ insert_text_row row rows else row ∷ next ∷ rows

-- `ORDER BY original_value`
text_rows_in_order : List (Text × Text × ℤ) → List (Text × Text × ℤ)
unfolding insert_text_row
text_rows_in_order [] = []
text_rows_in_order (row ∷ rows) = insert_text_row row (text_rows_in_order rows)

unfoldable pub text_mapping_rows : VaultDatabase → Text → Result (List (Text × Text × ℤ))
unfolding internal_connection validated_text_rows text_rows_in_order
text_mapping_rows db domain_id = do
  tables ← internal_connection db
  rows ← validated_text_rows (keep (λ row. text_eq row.domain_id domain_id) tables.text_mappings)
  ok (text_rows_in_order rows)
