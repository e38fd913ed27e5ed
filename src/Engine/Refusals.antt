-- ===== src/Engine/Refusals.antt =====
-- engine/pass1.py: where the finalization of a numeric key domain gives up.
use dbf_anonymizer.Prelude.{
  ℕ, ◌≤◌, ◌≡◌, refl, sym, ◌∙◌, ap, ◌⊎◌, inl, inr, false, true, Bool, ◌&&◌, Bool-cases, none, List,
  ℤ, pos, ◌-ℤ◌, ltb_ℤ, Text, arith, length,
}
use dbf_anonymizer.Errors.{Failure, overflow_error, Result, ok, err, ok-injective, >>=-eq-ok}
use dbf_anonymizer.NumericKeys.{NumericKeyDomain, size}
use dbf_anonymizer.NumericAllocation.Finalization.{
  ensured_row, ensure_row, ensured_from, ensure_domain,
}
use dbf_anonymizer.Vault.{MappingDomain, NumericKeyMapping, VaultDatabase, Faults, in_transaction}
use dbf_anonymizer.Vault.Atomicity.{Outcome, kept, undone, in_transaction-Outcome}
use dbf_anonymizer.Vault.Inserted.{create_domain-eq}
use dbf_anonymizer.Vault.Mappings.{create_domain, mapping_domains, has_domain, kind_numeric_key}
use dbf_anonymizer.Vault.NumericMappings.{numeric_mapping_rows}
use dbf_anonymizer.Engine.Spool.{PassOneSpool, numeric_unpersisted_count}
use dbf_anonymizer.Engine.SqlIntegers.{fits_integer}
use dbf_anonymizer.Engine.NumericPass.{
  domain_exhausted, spool_value_free_in_domain, numeric_residual_feasible,
}
use dbf_anonymizer.Engine.NumericFinalization.{
  Finalization, Round, opened, counted, with_domain_row, finalize_numeric,
}

-- the stored pairs of a vault
abbrev pairs : VaultDatabase → List NumericKeyMapping
pairs db = db.tables.numeric_key_mappings

-- the call raised, and the spool and the pairs of the vault are as before
abbrev pub Refused : VaultDatabase → PassOneSpool → Result ℤ × VaultDatabase × PassOneSpool → Type 0
Refused db spool r =
    ((failure : Failure) × (r.0 ≡ err failure)) × (pairs r.1 ≡ pairs db) × (r.2 ≡ spool)

module _ (domain_id : Text) where
  ensured_row-pairs :
      (db written : VaultDatabase) (there : Bool)
      → ensured_row domain_id db there ≡ ok (tt, written)
      → pairs written ≡ pairs db
  ensured_row-pairs db written true h =
      ap (λ (r : Unit {0} × VaultDatabase). pairs r.1) (sym (ok-injective h))
  ensured_row-pairs db written false h =
      let s = >>=-eq-ok (create_domain kind_numeric_key none none domain_id db) _ h in
      let made = create_domain-eq kind_numeric_key none none domain_id db s.0 s.1 in
      ap (λ (r : Unit {0} × VaultDatabase). pairs r.1) (sym (ok-injective s.2)) ∙ ap pairs made.1

  ensure_row-pairs :
      (db written : VaultDatabase)
      → ensure_row domain_id db ≡ ok (tt, written)
      → pairs written ≡ pairs db
  unfolding ensure_row
  ensure_row-pairs db written h =
      let s = >>=-eq-ok (mapping_domains db) _ h in
      ensured_row-pairs db written (has_domain domain_id s.0) s.2

  Outcome-pairs :
      (db : VaultDatabase) (r : Result (Unit {0}) × VaultDatabase)
      → Outcome (ensure_row domain_id) db r
      → pairs r.1 ≡ pairs db
  Outcome-pairs db _ (kept value written admitted owned ran) =
      ensure_row-pairs (record db { active = true }) written ran
  Outcome-pairs db _ (undone failure after same open_state bound) =
      ap (λ t. t.numeric_key_mappings) same

  -- creating the domain stores no pair, whether it succeeds or not
  ensured_from-pairs :
      (faults : Faults) (db : VaultDatabase) (listed : Result (List MappingDomain))
      → pairs (ensured_from faults domain_id db listed).1 ≡ pairs db
  ensured_from-pairs faults db (err failure) = refl
  ensured_from-pairs faults db (ok listed) = elim (Bool-cases (has_domain domain_id listed)) [
    | inl there ↦ rw there
    | inr missing ↦ rw missing (
        Outcome-pairs db (in_transaction faults (ensure_row domain_id) db)
          (in_transaction-Outcome faults (ensure_row domain_id) db))
  ]

  module _ (d : NumericKeyDomain)
      (wide : (fits_integer d.pseudonym_low && fits_integer d.pseudonym_high) ≡ false) where
    -- the feasibility test never accepts
    wide_test :
        (occupied remaining : ℤ) (db : VaultDatabase) (spool : PassOneSpool)
        → ltb_ℤ (pos 0) remaining ≡ true
        → (numeric_residual_feasible d occupied remaining db spool domain_id ≡ ok false)
          ⊎ (numeric_residual_feasible d occupied remaining db spool domain_id ≡ err overflow_error)
    unfolding numeric_residual_feasible spool_value_free_in_domain
    wide_test occupied remaining db spool some_left =
        elim (Bool-cases (ltb_ℤ (size d -ℤ occupied) remaining)) [
          | inl few ↦ inl (rw few)
          | inr enough ↦ elim (Bool-cases (ltb_ℤ (size d -ℤ occupied) (pos 1))) [
            | inl none_left ↦ inl (rw (enough, none_left))
            | inr left ↦ inr (rw (enough, left, some_left, wide))
          ]
        ]

    module _ (rounds : ℕ → Round) (spool : PassOneSpool)
        (observations : 1 ≤ numeric_unpersisted_count spool domain_id) where
      opened-Refused :
          (s : Finalization) (test : Result Bool)
          → (test ≡ ok false) ⊎ (test ≡ err overflow_error)
          → let r = opened d domain_id rounds s test in
            Refused s.db s.spool (r.0, r.1.db, r.1.spool)
      opened-Refused s (err failure) rejected = ((failure, refl), refl, refl)
      opened-Refused s (ok false) rejected = ((domain_exhausted, refl), refl, refl)
      opened-Refused s (ok true) (inl accepted) = cc
      opened-Refused s (ok true) (inr accepted) = cc

      -- the local variables at the beginning
      abbrev starting : VaultDatabase → List (Text × Text) → Finalization
      starting db rows = record {
        db = db;
        spool = spool;
        occupied = pos (length rows);
        remaining = pos (numeric_unpersisted_count spool domain_id);
        allocated = pos 0;
      }

      counted-Refused :
          (db : VaultDatabase) (listed : Result (List (Text × Text)))
          → Refused db spool (counted d domain_id rounds db spool listed)
      counted-Refused db (err failure) = ((failure, refl), refl, refl)
      counted-Refused db (ok rows) =
          let count = pos (numeric_unpersisted_count spool domain_id) in
          let some_left : ltb_ℤ (pos 0) count ≡ true = ground arith in
          opened-Refused (starting db rows)
            (numeric_residual_feasible d (pos (length rows)) count db spool domain_id)
            (wide_test (pos (length rows)) count db spool some_left)

      with_domain_row-Refused :
          (db : VaultDatabase) (r : Result (Unit {0}) × VaultDatabase)
          → pairs r.1 ≡ pairs db
          → Refused db spool (with_domain_row d domain_id rounds spool r)
      with_domain_row-Refused db (err failure, after) same = ((failure, refl), same, refl)
      with_domain_row-Refused db (ok _, after) same =
          let (raised, stored, left) =
            counted-Refused after (numeric_mapping_rows after domain_id) in
          (raised, stored ∙ same, left)

      -- No numeric domain with a bound beyond 64 bits can be finalized: with an observation in the
      -- spool every call raises, whatever the vault holds, the draws and the faults are, stores no
      -- mapping and leaves the spool as it was.
      pub finalize_numeric-Refused :
          (faults : Faults) (db : VaultDatabase)
          → Refused db spool (finalize_numeric d domain_id faults rounds db spool)
      unfolding finalize_numeric ensure_domain
      finalize_numeric-Refused faults db =
          with_domain_row-Refused db (ensure_domain faults domain_id db)
            (ensured_from-pairs faults db (mapping_domains db))
