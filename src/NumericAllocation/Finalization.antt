-- ===== src/NumericAllocation/Finalization.antt =====
-- vault/numeric_allocation.py: the finalization of a numeric key domain over the vault.
use dbf_anonymizer.Prelude.{
  Bool, true, false, not, Option, none, some, List, if◌then◌else◌, find, keep, ℤ, Text, text_eq,
  mem,
}
use dbf_anonymizer.Errors.{value_error, Result, ok, err, ◌>>=◌}
use dbf_anonymizer.NumericKeys.{plan_numeric_bijection}
use dbf_anonymizer.Vault.{MappingDomain, VaultDatabase, Faults, in_transaction}
use dbf_anonymizer.Vault.Mappings.{create_domain, mapping_domains, kind_numeric_key, has_domain}
use dbf_anonymizer.NumericAllocation.{NumericKeyDomainMapping, no_completion}
use dbf_anonymizer.NumericAllocation.Rows.{domain_kind_conflict, sync_used, Outcome}

-- INSERT of the row, unless it is there
abbrev pub ensured_row : Text → VaultDatabase → Bool → Result (Unit {0} × VaultDatabase)
ensured_row domain_id db true = ok (tt, db)
ensured_row domain_id db false = do
  created ← create_domain kind_numeric_key none none domain_id db
  ok (tt, created.1)

-- the body of the transaction of `_ensure_domain`
unfoldable pub ensure_row : Text → VaultDatabase → Result (Unit {0} × VaultDatabase)
unfolding mapping_domains create_domain
ensure_row domain_id db = do
  rows ← mapping_domains db
  ensured_row domain_id db (has_domain domain_id rows)

-- with the rows that were read before the unit
abbrev pub ensured_from :
    Faults → Text → VaultDatabase → Result (List MappingDomain) → Result (Unit {0}) × VaultDatabase
ensured_from faults domain_id db (err failure) = (err failure, db)
ensured_from faults domain_id db (ok rows) =
    if has_domain domain_id rows
    then (ok tt, db)
    else in_transaction faults (ensure_row domain_id) db

-- `_ensure_domain`
unfoldable pub ensure_domain : Faults → Text → VaultDatabase → Result (Unit {0}) × VaultDatabase
unfolding ensure_row in_transaction mapping_domains
ensure_domain faults domain_id db = ensured_from faults domain_id db (mapping_domains db)

abbrev pub of_numeric_kind : Option MappingDomain → Result (Unit {0})
of_numeric_kind none = err domain_kind_conflict
of_numeric_kind (some row) =
    if text_eq row.domain_kind kind_numeric_key then ok tt else err domain_kind_conflict

-- `_validate_domain_kind`
unfoldable pub validate_domain_kind : Text → VaultDatabase → Result (Unit {0})
unfolding mapping_domains
validate_domain_kind domain_id db = do
  rows ← mapping_domains db
  of_numeric_kind (find (λ row. text_eq row.domain_id domain_id) rows)

abbrev pub unpersisted : NumericKeyDomainMapping → List ℤ
unpersisted m = keep (λ value. not (mem value m.persisted_originals)) m.originals

abbrev pub frozen : NumericKeyDomainMapping → VaultDatabase → Result Bool → Outcome (Unit {0})
frozen m db (err failure) = (err failure, m, db)
frozen m db (ok false) = (err no_completion, m, db)
frozen m db (ok true) = (ok tt, record m { finalized = true }, db)

abbrev pub loaded : VaultDatabase → Result (Unit {0}) × NumericKeyDomainMapping → Outcome (Unit {0})
loaded db (err failure, m) = (err failure, m, db)
loaded db (ok _, m) = frozen m db (plan_numeric_bijection m.domain (unpersisted m) m.used)

abbrev pub kind_checked :
    NumericKeyDomainMapping → VaultDatabase → Result (Unit {0}) → Outcome (Unit {0})
kind_checked m db (err failure) = (err failure, m, db)
kind_checked m db (ok _) = loaded db (sync_used m db)

abbrev pub ensured :
    NumericKeyDomainMapping → Result (Unit {0}) × VaultDatabase → Outcome (Unit {0})
ensured m (err failure, db) = (err failure, m, db)
ensured m (ok _, db) = kind_checked m db (validate_domain_kind m.domain_id db)

unfoldable pub finalize : Faults → NumericKeyDomainMapping → VaultDatabase → Outcome (Unit {0})
unfolding ensure_domain validate_domain_kind sync_used
finalize faults m db =
    if m.finalized
    then (err value_error, m, db)
    else ensured m (ensure_domain faults m.domain_id db)
