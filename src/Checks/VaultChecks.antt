-- ===== src/Checks/VaultChecks.antt =====
-- Runs of the vault's transaction unit and rows, and the theorems at small inputs.
use dbf_anonymizer.Prelude.{
  ◌≡◌, refl, find, true, false, none, some, [], ◌∷◌, Text, codes, pos, negsuc,
}
use dbf_anonymizer.Errors.{ok, err, vault_error, vault_unavailable}
use dbf_anonymizer.Values.{integer, text}
use dbf_anonymizer.CanonicalText.{canonical_integer_text, parse_canonical_integer_text}
use dbf_anonymizer.CanonicalText.RoundTrip.{
  parse_canonical_integer_text-canonical_integer_text,
  canonical_integer_text-parse_canonical_integer_text,
}
use dbf_anonymizer.Vault.{Tables, VaultDatabase, Faults, no_faults, in_transaction}
use dbf_anonymizer.Vault.Atomicity.{Outcome, in_transaction-Outcome}
use dbf_anonymizer.Vault.Mappings.{kind_numeric_key}
use dbf_anonymizer.Vault.NumericMappings.{
  add_numeric_key_mapping, get_numeric_pseudonym, get_numeric_original, with_numeric_row,
  fetched_numeric,
}
use dbf_anonymizer.Vault.NumericBijective.{IsBijection, add_numeric_key_mapping-IsBijection}

abbrev pub dom : Text
dom = codes "dom-a"

abbrev five : Text
five = codes "-5"

abbrev seven : Text
seven = codes "7"

abbrev pub some_tables : Tables
some_tables = record {
  owner_token = some (codes "wauth-1");
  acquire_tick = 1;
  operations = [];
  publication = [];
  tables = [];
  fields = [];
  mapping_domains =
      record {
        domain_id = dom;
        domain_kind = kind_numeric_key;
        normalization = none;
        relational_role = none;
      }
      ∷ [];
  text_mappings = [];
  numeric_key_mappings = [];
  memo_recovery = [];
  temporal_parameters = [];
}

abbrev pub a_vault : VaultDatabase
a_vault = record {
  tables = some_tables;
  closed = false;
  poisoned = false;
  read_only = false;
  writer_token = some (codes "wauth-1");
  active = false;
  cleanup_failure = none;
}

abbrev active_vault : VaultDatabase
active_vault = record a_vault { active = true }

abbrev failed_commit : Faults
failed_commit = record { begin_fails = false; commit_fails = true; rollback_fails = false }

lost_commit : in_transaction failed_commit (add_numeric_key_mapping dom five seven) a_vault ≡ (
  err (vault_error vault_unavailable "vault" "TRANSACTION_COMMIT_FAILED"),
  record a_vault { poisoned = true },
)
unfolding in_transaction add_numeric_key_mapping
lost_commit = refl

in_transaction-Outcome_example :
    Outcome
      (add_numeric_key_mapping dom five seven)
      a_vault
      (in_transaction no_faults (add_numeric_key_mapping dom five seven) a_vault)
in_transaction-Outcome_example =
    in_transaction-Outcome no_faults (add_numeric_key_mapping dom five seven) a_vault

abbrev stored_vault : VaultDatabase
stored_vault = record active_vault { tables = with_numeric_row dom five seven some_tables }

stores : add_numeric_key_mapping dom five seven active_vault ≡ ok (tt, stored_vault)
unfolding add_numeric_key_mapping
stores = refl

pub no_rows : IsBijection []
unfolding fetched_numeric find
no_rows d o p = (λ h. cc, λ h. cc)

add_numeric_key_mapping-IsBijection_example :
    IsBijection stored_vault.tables.numeric_key_mappings
    × (get_numeric_pseudonym stored_vault dom five ≡ ok (some seven))
    × (get_numeric_original stored_vault dom seven ≡ ok (some five))
add_numeric_key_mapping-IsBijection_example =
    add_numeric_key_mapping-IsBijection dom five seven active_vault stored_vault stores no_rows

parse_canonical_integer_text-canonical_integer_text_example :
    parse_canonical_integer_text (text (codes "-204")) ≡ ok (negsuc 203)
unfolding canonical_integer_text
parse_canonical_integer_text-canonical_integer_text_example =
    parse_canonical_integer_text-canonical_integer_text (negsuc 203) (codes "-204") refl

canonical_integer_text-parse_canonical_integer_text_example :
    canonical_integer_text (integer (pos 1090)) ≡ ok (codes "1090")
unfolding parse_canonical_integer_text
canonical_integer_text-parse_canonical_integer_text_example =
    canonical_integer_text-parse_canonical_integer_text (codes "1090") (pos 1090) refl
