-- ===== src/NumericAllocation/Persisted.antt =====
-- vault/numeric_allocation.py: reuse, allocation and recovery over the vault.
use dbf_anonymizer.Prelude.{
  ℕ, Bool, true, false, not, ◌&&◌, Option, none, some, if◌then◌else◌, ℤ, eqb_ℤ, Text, mem,
}
use dbf_anonymizer.Errors.{type_error, Result, ok, err, ◌>>=◌, ◌>>◌, raise_if}
use dbf_anonymizer.Values.{Value, integer}
use dbf_anonymizer.CanonicalText.{int_text}
use dbf_anonymizer.NumericKeys.{NumericKeyDomain}
use dbf_anonymizer.Vault.{
  VaultDatabase, Faults, transaction, verify_writer_ownership, in_transaction,
}
use dbf_anonymizer.Vault.NumericMappings.{
  add_numeric_key_mapping, get_numeric_pseudonym, get_numeric_original,
}
use dbf_anonymizer.NumericAllocation.{NumericKeyDomainMapping, select_candidate, recorded}
use dbf_anonymizer.NumericAllocation.Rows.{
  not_finalized, reused_self_mapping, range_infeasible, original_unobserved, fits_a_member,
  parse_original, parse_pseudonym, sync_used, Outcome,
}

-- a persisted pseudonym, revalidated for reuse
abbrev pub reusable : ℤ → Result ℤ → Result ℤ
reusable original (err failure) = err failure
reusable original (ok value) = if eqb_ℤ value original then err reused_self_mapping else ok value

-- what the unit of `_allocate` came to: a row that was there already, or its own new row
pub data Allocated : Type 0 where
  reused fresh : ℤ → Allocated

abbrev pub allocated_for :
    (ℕ → ℤ → ℤ)
    → NumericKeyDomainMapping
    → ℤ
    → VaultDatabase
    → Option Text
    → Result (Allocated × VaultDatabase)
allocated_for random_below m original db (some fresh_text) = do
  value ← reusable original (parse_pseudonym m.domain fresh_text)
  ok (reused value, db)
allocated_for random_below m original db none = do
  candidate ← select_candidate random_below m original
  written ← add_numeric_key_mapping m.domain_id (int_text original) (int_text candidate) db
  ok (fresh candidate, written.1)

-- the body of the transaction of `_allocate`
unfoldable pub allocation :
    (ℕ → ℤ → ℤ) → NumericKeyDomainMapping → ℤ → VaultDatabase → Result (Allocated × VaultDatabase)
unfolding sync_used parse_pseudonym get_numeric_pseudonym
allocation random_below m original db = do
  let (synced, seen) = sync_used m db
  synced
  existing ← get_numeric_pseudonym db m.domain_id (int_text original)
  allocated_for random_below seen original db existing

abbrev pub succeeded {ℓ} : {A : Type ℓ} → Result A → Bool
succeeded (ok _) = true
succeeded (err _) = false

-- whether the body of a unit runs
abbrev pub is_entered : Faults → VaultDatabase → Bool
is_entered faults db =
    succeeded (transaction db) && (not faults.begin_fails && succeeded (verify_writer_ownership db))

-- what `_sync_used` added stays in the instance, whatever becomes of the unit
abbrev pub seen_by : Faults → NumericKeyDomainMapping → VaultDatabase → NumericKeyDomainMapping
seen_by faults m db =
    if is_entered faults db then (sync_used m (record db { active = true })).1 else m

-- after the commit
abbrev pub settled : NumericKeyDomainMapping → ℤ → Result Allocated × VaultDatabase → Outcome ℤ
settled m original (err failure, db) = (err failure, m, db)
settled m original (ok (reused value), db) = (ok value, m, db)
settled m original (ok (fresh candidate), db) = (ok candidate, recorded m original candidate, db)

-- `_allocate`
unfoldable pub allocate :
    Faults → (ℕ → ℤ → ℤ) → NumericKeyDomainMapping → VaultDatabase → ℤ → Outcome ℤ
unfolding allocation in_transaction sync_used
allocate faults random_below m db original =
    settled (seen_by faults m db) original
      (in_transaction faults (allocation random_below m original) db)

-- the guards of `pseudonym_for`, and the lookup
abbrev pub requested : NumericKeyDomainMapping → VaultDatabase → ℤ → Result (Option Text)
requested m db original = do
  raise_if (not (fits_a_member m.domain original)) range_infeasible
  raise_if (not (mem original m.originals)) original_unobserved
  get_numeric_pseudonym db m.domain_id (int_text original)

abbrev pub reuse_or_allocate :
    Faults
    → (ℕ → ℤ → ℤ)
    → NumericKeyDomainMapping
    → VaultDatabase
    → ℤ
    → Result (Option Text)
    → Outcome ℤ
reuse_or_allocate faults random_below m db original (err failure) = (err failure, m, db)
reuse_or_allocate faults random_below m db original (ok none) =
    allocate faults random_below m db original
reuse_or_allocate faults random_below m db original (ok (some existing)) =
    (reusable original (parse_pseudonym m.domain existing), m, db)

abbrev pub for_value :
    Faults → (ℕ → ℤ → ℤ) → NumericKeyDomainMapping → VaultDatabase → Value → Outcome ℤ
for_value faults random_below m db (integer original) =
    reuse_or_allocate faults random_below m db original (requested m db original)
for_value faults random_below m db _ = (err type_error, m, db)

unfoldable pub pseudonym_for :
    Faults → (ℕ → ℤ → ℤ) → NumericKeyDomainMapping → VaultDatabase → Value → Outcome ℤ
unfolding allocate get_numeric_pseudonym parse_pseudonym
pseudonym_for faults random_below m db value =
    if m.finalized then for_value faults random_below m db value else (err not_finalized, m, db)

abbrev pub original_found : NumericKeyDomain → Option Text → Result (Option ℤ)
original_found d none = ok none
original_found d (some t) = do value ← parse_original d t; ok (some value)

unfoldable pub original_for : NumericKeyDomainMapping → VaultDatabase → Value → Result (Option ℤ)
unfolding get_numeric_original parse_original
original_for m db (integer pseudonym) = do
  found ← get_numeric_original db m.domain_id (int_text pseudonym)
  original_found m.domain found
original_for m db _ = err type_error
