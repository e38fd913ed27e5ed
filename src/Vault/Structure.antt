-- ===== src/Vault/Structure.antt =====
-- vault/store.py: the registration of tables and fields. SHA-256 is a parameter: `sha16 s` is the
-- text of `_sha16(s)`.
pub mod Paths
use dbf_anonymizer.Prelude.{
  ℕ, Bool, true, false, not, ◌&&◌, ◌||◌, Option, none, some, List, [], ◌∷◌, ◌++◌, map, ◌==◌,
  if◌then◌else◌, length, any, keep, ℤ, pos, negsuc, Text, codes, contains, text_eq,
}
use dbf_anonymizer.Errors.{value_error, Result, ok, err, ◌>>=◌, ◌>>◌, raise_if}
use dbf_anonymizer.Vault.{
  Table, Field, Tables, VaultDatabase, validate_token, vault_state_failure,
  require_active_transaction, internal_connection,
}
use dbf_anonymizer.Vault.Mappings.{has_domain, validate_optional}

-- the characters NUL, slash, colon and backslash
abbrev pub nul : ℕ
nul = 0

abbrev pub slash : ℕ
slash = 47

abbrev pub colon : ℕ
colon = 58

abbrev pub backslash : ℕ
backslash = 92

-- `value.replace("\\", "/")`
abbrev pub to_slash : ℕ → ℕ
to_slash c = if c == backslash then slash else c

-- a part that starts with one more character
abbrev pub extend : ℕ → List Text → List Text
extend c [] = (c ∷ []) ∷ []
extend c (part ∷ parts) = (c ∷ part) ∷ parts

-- `s.split("/")` and `"/".join(parts)`
unfoldable pub split_slash : Text → List Text
split_slash [] = [] ∷ []
split_slash (c ∷ s) = if c == slash then [] ∷ split_slash s else extend c (split_slash s)

abbrev pub join_more : Text → List Text → Text
join_more part [] = part
join_more part (next ∷ parts) = part ++ (slash ∷ join_more next parts)

abbrev pub join_slash : List Text → Text
join_slash [] = []
join_slash (part ∷ parts) = join_more part parts

abbrev pub is_named : Text → Bool
is_named part = not (text_eq part []) && not (text_eq part (codes "."))

abbrev pub is_parent : Text → Bool
is_parent part = text_eq part (codes "..")

abbrev pub is_empty : List Text → Bool
is_empty [] = true
is_empty (_ ∷ _) = false

-- `_normalize_relative_path`
unfoldable pub normalize_relative_path : Text → Result Text
unfolding split_slash
normalize_relative_path value = do
  raise_if (text_eq value [] || contains nul value) value_error
  let parts = keep is_named (split_slash (map to_slash value))
  raise_if (is_empty parts || any is_parent parts) value_error
  raise_if (any (contains colon) parts) value_error
  ok (join_slash parts)

abbrev pub table_clashes : Text → Text → List Table → Bool
table_clashes table_id relative_path rows =
    any (λ row. text_eq row.table_id table_id || text_eq row.relative_path relative_path) rows

module _ (sha16 : Text → Text) where
  abbrev pub table_id_of : Text → Text
  table_id_of relative_path = codes "tbl-" ++ sha16 relative_path

  abbrev pub field_id_of : Text → Text → Text
  field_id_of table_id name = codes "fld-" ++ sha16 (table_id ++ (nul ∷ name))

  unfoldable pub register_table :
      Text → Option Text → Option Text → VaultDatabase → Result (Text × VaultDatabase)
  unfolding require_active_transaction normalize_relative_path
  register_table relative_path schema_fingerprint source_fingerprint db = do
    require_active_transaction db
    normalized ← normalize_relative_path relative_path
    raise_if (table_clashes (table_id_of normalized) normalized db.tables.tables)
        (vault_state_failure "TABLE_REJECTED")
    ok (
      table_id_of normalized,
      record db {
        tables = record db.tables {
          tables =
              record {
                table_id = table_id_of normalized;
                relative_path = normalized;
                schema_fingerprint = schema_fingerprint;
                source_fingerprint = source_fingerprint;
              }
              ∷ db.tables.tables;
        };
      },
    )

  abbrev pub field_clashes : Text → Text → Text → List Field → Bool
  field_clashes field_id table_id name rows =
      any
        (λ row.
          text_eq row.field_id field_id || (text_eq row.table_id table_id && text_eq row.name name))
        rows

  -- a foreign key that may be NULL
  abbrev pub is_missing : Option Text → Tables → Bool
  is_missing none tables = false
  is_missing (some domain_id) tables = not (has_domain domain_id tables.mapping_domains)

  abbrev pub field_width : ℤ → Result ℕ
  field_width (pos width) = ok width
  field_width (negsuc _) = err value_error

  unfoldable pub register_field :
      Text
      → Text
      → Text
      → ℤ
      → Option Text
      → Option Text
      → Option Text
      → VaultDatabase
      → Result (Text × VaultDatabase)
  unfolding require_active_transaction validate_token
  register_field table_id name dbf_type width encoding transform_action mapping_domain_id db = do
    require_active_transaction db
    validate_token table_id
    validate_token name
    validate_token dbf_type
    columns ← field_width width
    validate_optional transform_action
    raise_if
        (field_clashes (field_id_of table_id name) table_id name db.tables.fields
          || (not (any (λ row. text_eq row.table_id table_id) db.tables.tables)
              || is_missing mapping_domain_id db.tables))
        (vault_state_failure "FIELD_REJECTED")
    ok (
      field_id_of table_id name,
      record db {
        tables = record db.tables {
          fields =
              record {
                field_id = field_id_of table_id name;
                table_id = table_id;
                name = name;
                dbf_type = dbf_type;
                encoding = encoding;
                width = columns;
                transform_action = transform_action;
                mapping_domain_id = mapping_domain_id;
              }
              ∷ db.tables.fields;
        };
      },
    )
