-- ===== src/TemporalAllocation.antt =====
-- vault/temporal_allocation.py: one reversible shift domain, with its parameter in the vault. The
-- digest of the identity is a parameter (SHA-256), and so is `random_below` (the system's CSPRNG).
pub mod Observed
pub mod Finalized
pub mod Reused
pub mod RoundTrip
pub mod Returns
use dbf_anonymizer.Prelude.{
  ℕ, String, Bool, true, false, not, ◌&&◌, ◌||◌, Option, none, some, List, [], ◌∷◌, ◌++◌,
  if◌then◌else◌, find, ℤ, pos, negsuc, ltb_ℤ, leb_ℤ, eqb_ℤ, Text, text_eq, codes,
}
use dbf_anonymizer.Errors.{
  Failure, mapping_error, mapping_constraint_infeasible, value_error, Result, ok, err, ◌>>=◌, ◌>>◌,
  raise_if,
}
use dbf_anonymizer.Values.{Value, null, integer, is_null}
use dbf_anonymizer.Temporal.{
  temporal_ordinal, temporal_shift, temporal_recover, temporal_feasible_interval,
  temporal_nonzero_count, temporal_offset_at, only_zero_feasible,
}
use dbf_anonymizer.Vault.{
  Cell, integer_cell, MappingDomain, TemporalParameter, Tables, VaultDatabase, Faults,
  validate_token, vault_state_failure, internal_connection, in_transaction,
}
use dbf_anonymizer.Vault.Mappings.{create_domain, kind_temporal}
use dbf_anonymizer.Vault.Recovery.{set_temporal_parameter, of_domain}

abbrev pub Range : Type 0
Range = ℤ × ℤ

abbrev infeasible : String → Failure
infeasible = mapping_error mapping_constraint_infeasible "transform"

abbrev pub not_finalized : Failure
not_finalized = infeasible "TEMPORAL_NOT_FINALIZED"

abbrev pub empty_domain : Failure
empty_domain = infeasible "TEMPORAL_EMPTY_DOMAIN"

abbrev pub offset_incompatible : Failure
offset_incompatible = vault_state_failure "TEMPORAL_OFFSET_INCOMPATIBLE"

abbrev pub corrupt_state : Failure
corrupt_state = vault_state_failure "TEMPORAL_STATE_INVALID"

abbrev pub recovery_invalid : Failure
recovery_invalid = vault_state_failure "TEMPORAL_RECOVERY_INVALID"

unfoldable pub temporal_identity_material : Option Text → Text
temporal_identity_material none = codes "TEMPORAL" ++ 0 ∷ (codes "DEFAULT" ++ 0 ∷ codes "V1")
temporal_identity_material (some domain_name) =
    codes "TEMPORAL" ++ 0 ∷ (codes "NAMED" ++ 0 ∷ domain_name)

-- what the checks of `_persisted_temporal_state` make of the `offset_days` that the join found
abbrev pub valid_offset : Cell → Result (Option ℤ)
valid_offset (integer_cell offset) =
    if eqb_ℤ offset (pos 0) then err corrupt_state else ok (some offset)
valid_offset _ = err corrupt_state

abbrev pub joined_offset : Option TemporalParameter → Result (Option ℤ)
joined_offset none = err corrupt_state
joined_offset (some row) = valid_offset row.offset_days

abbrev pub names_domain : Text → MappingDomain → Bool
names_domain domain_id row = text_eq row.domain_id domain_id

abbrev pub domain_state : Text → Tables → Option MappingDomain → Result (Option ℤ)
domain_state domain_id tables none = ok none
domain_state domain_id tables (some row) =
    if text_eq row.domain_kind kind_temporal
    then joined_offset (find (of_domain domain_id) tables.temporal_parameters)
    else err corrupt_state

unfoldable pub persisted_temporal_state : VaultDatabase → Text → Result (Option ℤ)
unfolding internal_connection
persisted_temporal_state db domain_id = do
  tables ← internal_connection db
  domain_state domain_id tables (find (names_domain domain_id) tables.mapping_domains)

pub record TemporalShiftDomain : Type 0 where
  pub domain_id : Text
  pub min_ordinal : Option ℤ
  pub max_ordinal : ℤ
  pub offset : Option ℤ
  pub finalized : Bool
  pub empty : Bool

abbrev validate_name : Option Text → Result (Unit {0})
validate_name none = ok tt
validate_name (some domain_name) = validate_token domain_name

abbrev pub fresh_domain : Text → TemporalShiftDomain
fresh_domain domain_id = record {
  domain_id = domain_id;
  min_ordinal = none;
  max_ordinal = pos 0;
  offset = none;
  finalized = false;
  empty = false;
}

-- `__init__`
unfoldable pub new_domain : (Text → Text) → Option Text → Result TemporalShiftDomain
unfolding temporal_identity_material
new_domain sha16 domain_name = do
  validate_name domain_name
  ok (fresh_domain (codes "dom-" ++ sha16 (temporal_identity_material domain_name)))

abbrev pub widened : TemporalShiftDomain → Option ℤ → ℤ → TemporalShiftDomain
widened d none ordinal = record d { min_ordinal = some ordinal; max_ordinal = ordinal }
widened d (some low) ordinal = record d {
  min_ordinal = some (if ltb_ℤ ordinal low then ordinal else low);
  max_ordinal = if ltb_ℤ d.max_ordinal ordinal then ordinal else d.max_ordinal;
}

abbrev pub observe_ordinal : Value → TemporalShiftDomain → Result TemporalShiftDomain
observe_ordinal null d = ok d
observe_ordinal value d = do ordinal ← temporal_ordinal value; ok (widened d d.min_ordinal ordinal)

unfoldable pub observe : Value → TemporalShiftDomain → Result TemporalShiftDomain
observe value d = do raise_if d.finalized value_error; observe_ordinal value d

-- the body of the transaction of `finalize`
abbrev pub chosen : (ℤ → ℤ) → Text → Range → Option ℤ → VaultDatabase → Result (ℤ × VaultDatabase)
chosen random_below domain_id range (some offset) db = ok (offset, db)
chosen random_below domain_id (lower, upper) none db = do
  fresh_offset ← temporal_offset_at lower upper (random_below (temporal_nonzero_count lower upper))
  created ← create_domain kind_temporal none none domain_id db
  written ← set_temporal_parameter domain_id (integer fresh_offset) created.1
  ok (fresh_offset, written.1)

unfoldable pub choose_offset : (ℤ → ℤ) → Text → Range → VaultDatabase → Result (ℤ × VaultDatabase)
unfolding persisted_temporal_state
choose_offset random_below domain_id range db = do
  persisted ← persisted_temporal_state db domain_id
  chosen random_below domain_id range persisted db

-- after the commit: the offset must fit what was observed
abbrev pub settle :
    TemporalShiftDomain
    → Range
    → Result ℤ × VaultDatabase
    → Result (Option ℤ) × TemporalShiftDomain × VaultDatabase
settle d range (err failure, db) = (err failure, d, db)
settle d (lower, upper) (ok offset, db) =
    if leb_ℤ lower offset && leb_ℤ offset upper
    then (ok (some offset), record d { offset = some offset; finalized = true }, db)
    else (err offset_incompatible, d, db)

abbrev pub allocate :
    Faults
    → (ℤ → ℤ)
    → TemporalShiftDomain
    → VaultDatabase
    → Result Range
    → Result (Option ℤ) × TemporalShiftDomain × VaultDatabase
allocate faults random_below d db (err failure) = (err failure, d, db)
allocate faults random_below d db (ok (lower, upper)) =
    if leb_ℤ (temporal_nonzero_count lower upper) (pos 0)
    then (err only_zero_feasible, d, db)
    else settle d (lower, upper)
        (in_transaction faults (choose_offset random_below d.domain_id (lower, upper)) db)

abbrev pub finalize_from :
    Faults
    → (ℤ → ℤ)
    → TemporalShiftDomain
    → VaultDatabase
    → Option ℤ
    → Result (Option ℤ) × TemporalShiftDomain × VaultDatabase
finalize_from faults random_below d db none =
    (ok none, record d { finalized = true; empty = true; offset = none }, db)
finalize_from faults random_below d db (some low) =
    allocate faults random_below d db (temporal_feasible_interval low d.max_ordinal)

unfoldable pub finalize :
    Faults
    → (ℤ → ℤ)
    → TemporalShiftDomain
    → VaultDatabase
    → Result (Option ℤ) × TemporalShiftDomain × VaultDatabase
unfolding choose_offset in_transaction temporal_feasible_interval temporal_nonzero_count
finalize faults random_below d db = finalize_from faults random_below d db d.min_ordinal

-- the shift by the offset of a finalized domain
abbrev pub shifted_by : Bool → Option ℤ → Value → Result Value
shifted_by true (some offset) value = temporal_shift value offset
shifted_by _ _ value = err not_finalized

unfoldable pub shifted : TemporalShiftDomain → Value → Result Value
shifted d value =
    if d.empty
    then (if is_null value then ok null else err empty_domain)
    else shifted_by d.finalized d.offset value

-- the offset that a recovery uses, and the domain that keeps it
abbrev pub recovery_offset : TemporalShiftDomain → VaultDatabase → Option ℤ → Result ℤ
recovery_offset d db (some offset) = ok offset
recovery_offset d db none = do
  persisted ← persisted_temporal_state db d.domain_id
  elim persisted [ none ↦ err recovery_invalid | some offset ↦ ok offset ]

unfoldable pub recover :
    TemporalShiftDomain → VaultDatabase → Value → Result Value × TemporalShiftDomain
recover d db value = if is_null value then (ok null, d) else elim (recovery_offset d db d.offset) [
  | err failure ↦ (err failure, d)
  | ok offset ↦ (temporal_recover value offset, record d { offset = some offset })
]
