-- ===== src/NumericAllocation/Recovery.antt =====
-- vault/numeric_allocation.py: what `pseudonym_for` returned is recovered by `original_for`.
use mathlib.Core.Path.{subst}
use dbf_anonymizer.Prelude.{
  not-false, ◌≡◌, refl, sym, ◌∙◌, ap, inl, inr, true, false, not, Bool-cases, Option, none, some, ℕ,
  ℤ, Text, mem,
}
use dbf_anonymizer.Errors.{
  Result, ok, err, ok-injective, >>=-eq-ok, >>-eq-ok, raise_if, raise_if-eq-ok,
}
use dbf_anonymizer.Values.{integer}
use dbf_anonymizer.CanonicalText.{int_text}
use dbf_anonymizer.NumericKeys.{NumericKeyDomain}
use dbf_anonymizer.Vault.{VaultDatabase, Faults, internal_connection, require_trusted_connection}
use dbf_anonymizer.Vault.{in_transaction}
use dbf_anonymizer.Vault.Atomicity.{in_transaction-Committed}
use dbf_anonymizer.Vault.Connection.{internal_connection-eq_tables, internal_connection-trusted}
use dbf_anonymizer.Vault.NumericMappings.{
  get_numeric_pseudonym, get_numeric_original, pseudonym_in, add_numeric_key_mapping,
}
use dbf_anonymizer.Vault.NumericBijective.{IsBijection, add_numeric_key_mapping-IsBijection}
use dbf_anonymizer.NumericAllocation.{NumericKeyDomainMapping, select_candidate}
use dbf_anonymizer.NumericAllocation.Rows.{
  Outcome, not_finalized, range_infeasible, original_unobserved, sync_used, fits_a_member,
  parse_pseudonym,
}
use dbf_anonymizer.NumericAllocation.Persisted.{
  original_for, pseudonym_for, reusable, Allocated, reused, fresh, allocated_for, allocation,
  settled, seen_by, allocate, requested, reuse_or_allocate, for_value,
}
use dbf_anonymizer.NumericAllocation.ReadBack.{
  refused_value, parse_original-int_text, parse_pseudonym-int_text, reusable-ok,
  sync_used-SameDomain,
}

abbrev pub Rows : VaultDatabase → Type 0
Rows db = IsBijection db.tables.numeric_key_mappings

-- the two lookups on one vault
pseudonym-original :
    (db : VaultDatabase) (id o t : Text)
    → Rows db
    → get_numeric_pseudonym db id o ≡ ok (some t)
    → get_numeric_original db id t ≡ ok (some o)
unfolding get_numeric_pseudonym get_numeric_original
pseudonym-original db id o t rows h =
    let s = >>=-eq-ok (internal_connection db) _ h in
    let conn = internal_connection-eq_tables db s.0 s.1 in
    let found : pseudonym_in db.tables.numeric_key_mappings id o ≡ ok (some t) =
      ap (λ tables. pseudonym_in tables.numeric_key_mappings id o) conn.1 ∙ s.2 in
    rw (internal_connection-trusted db conn.0) ((rows id o t).0 found)

-- an instance of the domain, with the vault that a call left
abbrev pub Recovers : Text → NumericKeyDomain → VaultDatabase → ℤ → ℤ → Type 0
Recovers id d db p o =
    (reader : NumericKeyDomainMapping)
    → reader.domain_id ≡ id
    → reader.domain ≡ d
    → original_for reader db (integer p) ≡ ok (some o)

recovers :
    (id : Text) (d : NumericKeyDomain) (db : VaultDatabase) (p o : ℤ)
    → get_numeric_original db id (int_text p) ≡ ok (some (int_text o))
    → fits_a_member d o ≡ true
    → Recovers id d db p o
unfolding original_for
recovers id d db p o found fits reader same_id same_domain =
    rw (same_id, same_domain, found, parse_original-int_text d o fits)

-- a row that was there already
reused-Recovers :
    (id : Text) (d : NumericKeyDomain) (db : VaultDatabase) (o p : ℤ) (t : Text)
    → Rows db
    → fits_a_member d o ≡ true
    → get_numeric_pseudonym db id (int_text o) ≡ ok (some t)
    → reusable o (parse_pseudonym d t) ≡ ok p
    → Recovers id d db p o
reused-Recovers id d db o p t rows fits found reused_row =
    let same : int_text p ≡ t =
      parse_pseudonym-int_text d t p (reusable-ok o (parse_pseudonym d t) p reused_row).0 in
    recovers id d db p o
      (ap (get_numeric_original db id) same ∙ pseudonym-original db id (int_text o) t rows found)
      fits

abbrev token : Allocated → ℤ
token (reused value) = value
token (fresh candidate) = candidate

module _ (random_below : ℕ → ℤ → ℤ) (o : ℤ) (db : VaultDatabase) (rows : Rows db) where
  allocated_for-Recovers :
      (m : NumericKeyDomainMapping) (existing : Option Text) (a : Allocated)
      (written : VaultDatabase)
      → fits_a_member m.domain o ≡ true
      → get_numeric_pseudonym db m.domain_id (int_text o) ≡ ok existing
      → allocated_for random_below m o db existing ≡ ok (a, written)
      → Rows written × Recovers m.domain_id m.domain written (token a) o
  allocated_for-Recovers m (some t) a written fits found h =
      let s = >>=-eq-ok (reusable o (parse_pseudonym m.domain t)) _ h in
      let same : (reused s.0, db) ≡ (a, written) = ok-injective s.2 in
      let at_db = reused-Recovers m.domain_id m.domain db o s.0 t rows fits found s.1 in
      subst
        (λ (x : Allocated × VaultDatabase).
          Rows x.1 × Recovers m.domain_id m.domain x.1 (token x.0) o)
        same (rows, at_db)
  allocated_for-Recovers m none a written fits found h =
      let s = >>=-eq-ok (select_candidate random_below m o) _ h in
      let t =
        >>=-eq-ok (add_numeric_key_mapping m.domain_id (int_text o) (int_text s.0) db) _ s.2 in
      let kept =
        add_numeric_key_mapping-IsBijection m.domain_id (int_text o) (int_text s.0) db t.0.1 t.1
          rows in
      let at_new = recovers m.domain_id m.domain t.0.1 s.0 o kept.2 fits in
      subst
        (λ (x : Allocated × VaultDatabase).
          Rows x.1 × Recovers m.domain_id m.domain x.1 (token x.0) o)
        (ok-injective t.2) (kept.0, at_new)

abbrev pub Recovered : NumericKeyDomainMapping → VaultDatabase → ℤ → ℤ → Type 0
Recovered m db p o = Rows db × Recovers m.domain_id m.domain db p o

allocation-Recovers :
    (random_below : ℕ → ℤ → ℤ) (m : NumericKeyDomainMapping) (o : ℤ) (db : VaultDatabase)
    (a : Allocated) (written : VaultDatabase)
    → Rows db
    → fits_a_member m.domain o ≡ true
    → allocation random_below m o db ≡ ok (a, written)
    → Recovered m written (token a) o
unfolding allocation
allocation-Recovers random_below m o db a written rows fits h =
    let seen = (sync_used m db).1 in
    let same = sync_used-SameDomain m db in
    let s = >>-eq-ok (sync_used m db).0 _ h in
    let t = >>=-eq-ok (get_numeric_pseudonym db m.domain_id (int_text o)) _ s.1 in
    let kept =
      allocated_for-Recovers random_below o db rows seen t.0 a written
        (ap (λ d. fits_a_member d o) same.1 ∙ fits)
        (ap (λ id. get_numeric_pseudonym db id (int_text o)) same.0 ∙ t.1) t.2 in
    (
      kept.0,
      λ reader same_id same_domain. kept.1 reader (same_id ∙ sym same.0) (same_domain ∙ sym same.1),
    )

-- what the bookkeeping after the unit hands on
settled-ok :
    (m : NumericKeyDomainMapping) (o p : ℤ) (r : Result Allocated × VaultDatabase)
    → (settled m o r).0 ≡ ok p
    → (a : Allocated) × (r.0 ≡ ok a) × (token a ≡ p) × ((settled m o r).2 ≡ r.1)
settled-ok m o p (err failure, db) h = cc
settled-ok m o p (ok (reused value), db) h = (reused value, refl, ok-injective h, refl)
settled-ok m o p (ok (fresh candidate), db) h = (fresh candidate, refl, ok-injective h, refl)

-- ending the unit changes nothing that a lookup reads
closed_unit :
    (m : NumericKeyDomainMapping) (db : VaultDatabase) (p o : ℤ)
    → Recovered m db p o
    → Recovered m (record db { active = false }) p o
unfolding original_for internal_connection require_trusted_connection
closed_unit m db p o h = h

allocate-Recovered :
    (faults : Faults) (random_below : ℕ → ℤ → ℤ) (m : NumericKeyDomainMapping) (db : VaultDatabase)
    (o p : ℤ)
    → Rows db
    → fits_a_member m.domain o ≡ true
    → (allocate faults random_below m db o).0 ≡ ok p
    → Recovered m (allocate faults random_below m db o).2 p o
unfolding allocate
allocate-Recovered faults random_below m db o p rows fits h =
    let body = allocation random_below m o in
    let s = settled-ok (seen_by faults m db) o p (in_transaction faults body db) h in
    let c = in_transaction-Committed faults body db s.0 s.1 in
    let there =
      allocation-Recovers random_below m o (record db { active = true }) s.0 c.0 rows fits c.1 in
    let done = closed_unit m c.0 (token s.0) o there in
    subst (λ v. Recovered m (allocate faults random_below m db o).2 v o) s.2
      (subst (λ d. Recovered m d (token s.0) o) (sym (s.3 ∙ c.2)) done)

requested-ok :
    (m : NumericKeyDomainMapping) (db : VaultDatabase) (o : ℤ) (found : Option Text)
    → requested m db o ≡ ok found
    → (fits_a_member m.domain o ≡ true)
      × (get_numeric_pseudonym db m.domain_id (int_text o) ≡ ok found)
requested-ok m db o found h =
    let s = >>-eq-ok (raise_if (not (fits_a_member m.domain o)) range_infeasible) _ h in
    let t = >>-eq-ok (raise_if (not (mem o m.originals)) original_unobserved) _ s.1 in
    (not-false (fits_a_member m.domain o) (raise_if-eq-ok _ range_infeasible s.0), t.1)

reuse_or_allocate-Recovered :
    (faults : Faults) (random_below : ℕ → ℤ → ℤ) (m : NumericKeyDomainMapping) (db : VaultDatabase)
    (o p : ℤ) (found : Result (Option Text))
    → Rows db
    → requested m db o ≡ found
    → (reuse_or_allocate faults random_below m db o found).0 ≡ ok p
    → Recovered m (reuse_or_allocate faults random_below m db o found).2 p o
reuse_or_allocate-Recovered faults random_below m db o p (err failure) rows asked h = cc
reuse_or_allocate-Recovered faults random_below m db o p (ok none) rows asked h =
    allocate-Recovered faults random_below m db o p rows (requested-ok m db o none asked).0 h
reuse_or_allocate-Recovered faults random_below m db o p (ok (some t)) rows asked h =
    let passed = requested-ok m db o (some t) asked in
    (rows, reused-Recovers m.domain_id m.domain db o p t rows passed.0 passed.1 h)

-- Numeric keys are recovered: whatever pseudonym `pseudonym_for` returned for an original, reused or
-- freshly allocated, whatever the draws and the faults are, `original_for` of every instance of the
-- same domain gives the original back over the vault that the call left, and the rows of that vault
-- are a bijection again, if those of the vault before were.
pub pseudonym_for-original_for :
    (faults : Faults) (random_below : ℕ → ℤ → ℤ) (m : NumericKeyDomainMapping) (db : VaultDatabase)
    (o p : ℤ)
    → IsBijection db.tables.numeric_key_mappings
    → (pseudonym_for faults random_below m db (integer o)).0 ≡ ok p
    → Recovered m (pseudonym_for faults random_below m db (integer o)).2 p o
unfolding pseudonym_for
pseudonym_for-original_for faults random_below m db o p rows h = elim (Bool-cases m.finalized) [
  | inl ready ↦
      let result : for_value faults random_below m db (integer o)
          ≡ pseudonym_for faults random_below m db (integer o) =
        rw ready in
      subst (λ (r : Outcome ℤ). Recovered m r.2 p o) result
        (reuse_or_allocate-Recovered faults random_below m db o p (requested m db o) rows refl
          (ap (λ (r : Outcome ℤ). r.0) result ∙ h))
  | inr early ↦ absurd (refused_value {failure = not_finalized} {v = p} (sym (rw early) ∙ h))
]
