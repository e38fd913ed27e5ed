-- ===== src/NumericAllocation/Rows.antt =====
-- vault/numeric_allocation.py: the persisted rows of a numeric key domain, read back into integers.
-- An operation of the instance takes the database too, and returns what it returned or raised with
-- both.
use dbf_anonymizer.Prelude.{Bool, List, [], ◌∷◌, if◌then◌else◌, any, ℤ, eqb_ℤ, Text, insert}
use dbf_anonymizer.Errors.{
  Failure, mapping_conflict, mapping_constraint_infeasible, Result, ok, err, ◌>>=◌,
}
use dbf_anonymizer.Values.{text}
use dbf_anonymizer.CanonicalText.{parse_canonical_integer_text}
use dbf_anonymizer.NumericKeys.{
  NumericKeyDomain, contains_pseudonym, contains_range, member_original_ranges,
}
use dbf_anonymizer.Vault.{VaultDatabase}
use dbf_anonymizer.Vault.NumericMappings.{numeric_mapping_rows}
use dbf_anonymizer.NumericAllocation.{NumericKeyDomainMapping, mapping_failure, mapping_corrupt}

abbrev pub not_finalized : Failure
not_finalized = mapping_failure mapping_conflict "NUMERIC_KEY_NOT_FINALIZED"

abbrev pub persisted_self_mapping : Failure
persisted_self_mapping = mapping_failure mapping_conflict "NUMERIC_KEY_PERSISTED_SELF_MAPPING"

abbrev pub reused_self_mapping : Failure
reused_self_mapping = mapping_failure mapping_conflict "NUMERIC_KEY_REUSED_SELF_MAPPING"

abbrev pub domain_kind_conflict : Failure
domain_kind_conflict = mapping_failure mapping_conflict "NUMERIC_KEY_DOMAIN_KIND_CONFLICT"

abbrev pub range_infeasible : Failure
range_infeasible = mapping_failure mapping_constraint_infeasible "NUMERIC_KEY_RANGE_INFEASIBLE"

abbrev pub original_unobserved : Failure
original_unobserved =
    mapping_failure mapping_constraint_infeasible "NUMERIC_KEY_ORIGINAL_UNOBSERVED"

abbrev pub fits_a_member : NumericKeyDomain → ℤ → Bool
fits_a_member d value = any (λ range. contains_range range value) (member_original_ranges d)

-- an integer that `inside` accepts; every other text is corrupt state
abbrev pub parsed : (ℤ → Bool) → Result ℤ → Result ℤ
parsed inside (err failure) = err mapping_corrupt
parsed inside (ok value) = if inside value then ok value else err mapping_corrupt

-- `_parse_original`
unfoldable pub parse_original : NumericKeyDomain → Text → Result ℤ
parse_original d t = parsed (fits_a_member d) (parse_canonical_integer_text (text t))

-- `_parse_pseudonym`
unfoldable pub parse_pseudonym : NumericKeyDomain → Text → Result ℤ
parse_pseudonym d t = parsed (contains_pseudonym d) (parse_canonical_integer_text (text t))

-- one row of the domain, as the pair of its integers
unfoldable pub parse_row : NumericKeyDomain → Text × Text → Result (ℤ × ℤ)
unfolding parse_original parse_pseudonym
parse_row d (original_text, pseudonym_text) = do
  original ← parse_original d original_text
  pseudonym ← parse_pseudonym d pseudonym_text
  ok (original, pseudonym)

abbrev pub not_self_mapped : ℤ × ℤ → Result (ℤ × ℤ)
not_self_mapped (original, pseudonym) =
    if eqb_ℤ pseudonym original then err persisted_self_mapping else ok (original, pseudonym)

abbrev pub noted : NumericKeyDomainMapping → ℤ × ℤ → NumericKeyDomainMapping
noted m (original, pseudonym) = record m {
  used = insert pseudonym m.used;
  persisted_originals = insert original m.persisted_originals;
}

-- one round: a row that is refused ends the loop
abbrev pub continued :
    NumericKeyDomainMapping
    → (NumericKeyDomainMapping → Result (Unit {0}) × NumericKeyDomainMapping)
    → Result (ℤ × ℤ)
    → Result (Unit {0}) × NumericKeyDomainMapping
continued m later (err failure) = (err failure, m)
continued m later (ok pair) = later (noted m pair)

-- the loop over the rows, which keeps what the rows before a refused one added
unfoldable pub sync_loop :
    NumericKeyDomainMapping → List (Text × Text) → Result (Unit {0}) × NumericKeyDomainMapping
unfolding parse_row
sync_loop m [] = (ok tt, m)
sync_loop m (row ∷ rows) =
    continued m (λ seen. sync_loop seen rows) (parse_row m.domain row >>= not_self_mapped)

abbrev pub sync_rows :
    NumericKeyDomainMapping
    → Result (List (Text × Text))
    → Result (Unit {0}) × NumericKeyDomainMapping
sync_rows m (err failure) = (err failure, m)
sync_rows m (ok rows) = sync_loop m rows

-- `_load_and_validate_persisted`, and `_sync_used`, which is the same loop
unfoldable pub sync_used :
    NumericKeyDomainMapping → VaultDatabase → Result (Unit {0}) × NumericKeyDomainMapping
unfolding sync_loop numeric_mapping_rows
sync_used m db = sync_rows m (numeric_mapping_rows db m.domain_id)

abbrev pub Outcome : Type 0 → Type 0
Outcome A = Result A × NumericKeyDomainMapping × VaultDatabase

parse_rows : NumericKeyDomain → List (Text × Text) → Result (List (ℤ × ℤ))
unfolding parse_row
parse_rows d [] = ok []
parse_rows d (row ∷ rows) = do pair ← parse_row d row; later ← parse_rows d rows; ok (pair ∷ later)

unfoldable pub mapping_rows : NumericKeyDomainMapping → VaultDatabase → Result (List (ℤ × ℤ))
unfolding parse_rows numeric_mapping_rows
mapping_rows m db = do rows ← numeric_mapping_rows db m.domain_id; parse_rows m.domain rows
