-- ===== src/TemporalAllocation/Returns.antt =====
-- vault/temporal_allocation.py: when `finalize` returns an offset.
use dbf_anonymizer.Prelude.{
  ◌≡◌, ◌≢◌, refl, inl, inr, true, false, ◌&&◌, Bool-cases, none, some, any, find-none, ℤ, pos,
  leb_ℤ, ltb_ℤ, eqb_ℤ, eqb_ℤ_iff, le→ltb_ℤ, ◌≤ℤ◌, ◌<ℤ◌, ◌-ℤ◌, Text, text_eq_refl, arith,
}
use dbf_anonymizer.Errors.{ok}
use dbf_anonymizer.Values.{integer}
use dbf_anonymizer.Temporal.{
  temporal_nonzero_count, temporal_offset_at, temporal_feasible_interval, logical_min_ordinal,
  logical_max_ordinal,
}
use dbf_anonymizer.Temporal.Offsets.{temporal_offset_at-IsCandidate}
use dbf_anonymizer.Vault.{
  VaultDatabase, Tables, no_faults, transaction, verify_writer_ownership,
  require_trusted_connection, require_active_transaction, validate_token,
}
use dbf_anonymizer.Vault.Atomicity.{in_transaction-returns, transaction-trusted}
use dbf_anonymizer.Vault.Connection.{internal_connection-trusted}
use dbf_anonymizer.Vault.Mappings.{
  create_domain, kind_temporal, has_domain, with_domain, domain_row,
}
use dbf_anonymizer.Vault.Recovery.{set_temporal_parameter, of_domain, with_parameter}
use dbf_anonymizer.TemporalAllocation.{
  TemporalShiftDomain, finalize, choose_offset, persisted_temporal_state, names_domain,
}

-- a vault that the instance may write, with no row of the domain
pub record IsReady (id : Text) (db : VaultDatabase) : Type 0 where
  pub admitted : transaction db ≡ ok tt
  pub owned : verify_writer_ownership db ≡ ok tt
  pub token : validate_token id ≡ ok tt
  pub no_domain : has_domain id db.tables.mapping_domains ≡ false
  pub no_parameter : any (of_domain id) db.tables.temporal_parameters ≡ false

module _ (id : Text) (db : VaultDatabase) (o : ℤ) (trusted : require_trusted_connection db ≡ ok tt)
    (active : db.active ≡ true) (token : validate_token id ≡ ok tt) where
  create_domain-returns :
      has_domain id db.tables.mapping_domains ≡ false
      → create_domain kind_temporal none none id db
        ≡ ok (
          id,
          record db { tables = with_domain (domain_row id kind_temporal none none) db.tables },
        )
  unfolding create_domain require_active_transaction
  create_domain-returns no_domain =
      rw (active, token, internal_connection-trusted db trusted, no_domain)

  set_temporal_parameter-returns :
      eqb_ℤ o (pos 0) ≡ false
      → any (of_domain id) db.tables.temporal_parameters ≡ false
      → has_domain id db.tables.mapping_domains ≡ true
      → set_temporal_parameter id (integer o) db
        ≡ ok (tt, record db { tables = with_parameter id o db.tables })
  unfolding set_temporal_parameter require_active_transaction
  set_temporal_parameter-returns not_zero no_parameter known =
      rw (active, token, not_zero, internal_connection-trusted db trusted, no_parameter, known)

  persisted-none :
      has_domain id db.tables.mapping_domains ≡ false → persisted_temporal_state db id ≡ ok none
  unfolding persisted_temporal_state
  persisted-none no_domain = rw (
    internal_connection-trusted db trusted,
    find-none (names_domain id) db.tables.mapping_domains no_domain,
  )

known_after :
    (id : Text) (tables : Tables)
    → has_domain id (with_domain (domain_row id kind_temporal none none) tables).mapping_domains
      ≡ true
known_after id tables = rw (text_eq_refl id)

-- the tables that a fresh allocation writes
abbrev pub allocated_in : Text → ℤ → VaultDatabase → VaultDatabase
allocated_in id o db = record db {
  tables = with_parameter id o (with_domain (domain_row id kind_temporal none none) db.tables);
}

choose_offset-returns :
    (random_below : ℤ → ℤ) (id : Text) (lower upper o : ℤ) (db : VaultDatabase)
    → require_trusted_connection db ≡ ok tt
    → db.active ≡ true
    → validate_token id ≡ ok tt
    → has_domain id db.tables.mapping_domains ≡ false
    → any (of_domain id) db.tables.temporal_parameters ≡ false
    → temporal_offset_at lower upper (random_below (temporal_nonzero_count lower upper)) ≡ ok o
    → eqb_ℤ o (pos 0) ≡ false
    → choose_offset random_below id (lower, upper) db ≡ ok (o, allocated_in id o db)
unfolding choose_offset require_trusted_connection
choose_offset-returns random_below id lower upper o db trusted active token no_domain no_parameter
      fresh not_zero =
    let created : VaultDatabase = record db {
      tables = with_domain (domain_row id kind_temporal none none) db.tables;
    } in
    rw (
      persisted-none id db o trusted active token no_domain,
      fresh,
      create_domain-returns id db o trusted active token no_domain,
      set_temporal_parameter-returns id created o trusted active token not_zero no_parameter
          (known_after id db.tables),
    )

some_left : (index count : ℤ) → pos 0 ≤ℤ index → index <ℤ count → leb_ℤ count (pos 0) ≡ false
some_left index count low high = ground arith

not_zero_test : (o : ℤ) → o ≢ pos 0 → eqb_ℤ o (pos 0) ≡ false
not_zero_test o h = elim (Bool-cases (eqb_ℤ o (pos 0))) [
  | inl same ↦ absurd (h ((eqb_ℤ_iff o (pos 0)).0 same))
  | inr apart ↦ apart
]

within_test :
    (lower o upper : ℤ) → lower ≤ℤ o → o ≤ℤ upper → (leb_ℤ lower o && leb_ℤ o upper) ≡ true
within_test lower o upper low high = ground arith

trusted_active :
    (db : VaultDatabase)
    → require_trusted_connection db ≡ ok tt
    → require_trusted_connection (record db { active = true }) ≡ ok tt
unfolding require_trusted_connection
trusted_active db h = h

-- `finalize` is total where it should be: on a vault that the instance may write, with no row of
-- the domain and with every control statement working, observed extrema whose feasible interval
-- has an offset other than 0 get one, for every index that `random_below` may return.
pub finalize-returns :
    (random_below : ℤ → ℤ) (d : TemporalShiftDomain) (db : VaultDatabase) (low : ℤ)
    → IsReady d.domain_id db
    → d.min_ordinal ≡ some low
    → low ≤ℤ d.max_ordinal
    → (let count =
          temporal_nonzero_count
            (logical_min_ordinal -ℤ low)
            (logical_max_ordinal -ℤ d.max_ordinal) in
        (pos 0 ≤ℤ random_below count) × (random_below count <ℤ count))
    → (o : ℤ) × (finalize no_faults random_below d db ≡ (
      ok (some o),
      record d { offset = some o; finalized = true },
      record (allocated_in d.domain_id o db) { active = false },
    ))
unfolding finalize temporal_feasible_interval
finalize-returns random_below d db low ready is_low ordered index =
    let lower = logical_min_ordinal -ℤ low in
    let upper = logical_max_ordinal -ℤ d.max_ordinal in
    let count = temporal_nonzero_count lower upper in
    let crossing : ltb_ℤ d.max_ordinal low ≡ false = le→ltb_ℤ d.max_ordinal low ordered in
    let positive : leb_ℤ count (pos 0) ≡ false =
      some_left (random_below count) count index.0 index.1 in
    let picked = temporal_offset_at-IsCandidate lower upper (random_below count) index.0 index.1 in
    let not_zero = not_zero_test picked.0 picked.2.2 in
    let fits = within_test lower picked.0 upper picked.2.0 picked.2.1 in
    let begun : VaultDatabase = record db { active = true } in
    let ran =
      choose_offset-returns random_below d.domain_id lower upper picked.0 begun
        (trusted_active db (transaction-trusted db ready.admitted)) refl ready.token ready.no_domain
        ready.no_parameter picked.1 not_zero in
    let unit =
      in_transaction-returns (choose_offset random_below d.domain_id (lower, upper)) db
        (allocated_in d.domain_id picked.0 begun) picked.0 ready.admitted ready.owned ran in
    (picked.0, rw (is_low, crossing, positive, unit, fits))
