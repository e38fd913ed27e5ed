-- ===== src/TemporalAllocation/Finalized.antt =====
-- vault/temporal_allocation.py: the offset that `finalize` returns serves every observed value.
use mathlib.Core.Path.{subst}
use dbf_anonymizer.Prelude.{
  none-some, some-injective, ◌≡◌, ◌≢◌, refl, sym, ◌∙◌, ap, inl, inr, true, false, ◌&&◌, Bool-cases,
  Option, none, some, arith, ℤ, pos, leb_ℤ, eqb_ℤ, ◌≤ℤ◌, ◌+ℤ◌, Text, text_eq, find,
}
use dbf_anonymizer.Errors.{Result, ok, err, ok-injective, >>=-eq-ok}
use dbf_anonymizer.Values.{integer}
use dbf_anonymizer.Temporal.{
  temporal_feasible_interval, temporal_nonzero_count, temporal_offset_at, only_zero_feasible,
  in_logical_range,
}
use dbf_anonymizer.Temporal.Shift.{temporal_feasible_interval_iff}
use dbf_anonymizer.Vault.{
  VaultDatabase, Faults, in_transaction, Cell, null_cell, real_cell, text_cell, blob_cell,
  integer_cell, Tables, MappingDomain, TemporalParameter, internal_connection,
}
use dbf_anonymizer.Vault.Atomicity.{in_transaction-Committed, Committed}
use dbf_anonymizer.Vault.Inserted.{set_temporal_parameter-eq}
use dbf_anonymizer.Vault.Mappings.{create_domain, kind_temporal}
use dbf_anonymizer.Vault.Recovery.{set_temporal_parameter, of_domain}
use dbf_anonymizer.TemporalAllocation.{
  TemporalShiftDomain, corrupt_state, offset_incompatible, Range, finalize, finalize_from, allocate,
  settle, choose_offset, chosen, persisted_temporal_state, domain_state, joined_offset,
  valid_offset, names_domain,
}
use dbf_anonymizer.TemporalAllocation.Observed.{IsBetween}

err_ok : {v : ℤ} → err corrupt_state ≢ ok (some v)
err_ok h = cc

valid_offset-nonzero :
    (cell : Cell) (o : ℤ) → valid_offset cell ≡ ok (some o) → eqb_ℤ o (pos 0) ≡ false
valid_offset-nonzero (integer_cell v) o h = elim (Bool-cases (eqb_ℤ v (pos 0))) [
  | inl zero_offset ↦ absurd (err_ok {v = o} (sym (rw zero_offset) ∙ h))
  | inr other ↦
      let same : v ≡ o = some-injective (ok-injective (sym (rw other) ∙ h)) in
      subst (λ x. eqb_ℤ x (pos 0) ≡ false) same other
]
valid_offset-nonzero null_cell o h = cc
valid_offset-nonzero real_cell o h = cc
valid_offset-nonzero (text_cell t) o h = cc
valid_offset-nonzero (blob_cell b) o h = cc

joined_offset-nonzero :
    (row : Option TemporalParameter) (o : ℤ)
    → joined_offset row ≡ ok (some o)
    → eqb_ℤ o (pos 0) ≡ false
joined_offset-nonzero none o h = cc
joined_offset-nonzero (some row) o h = valid_offset-nonzero row.offset_days o h

domain_state-nonzero :
    (id : Text) (tables : Tables) (row : Option MappingDomain) (o : ℤ)
    → domain_state id tables row ≡ ok (some o)
    → eqb_ℤ o (pos 0) ≡ false
domain_state-nonzero id tables none o h = absurd (none-some {a = o} (ok-injective h))
domain_state-nonzero id tables (some row) o h =
    elim (Bool-cases (text_eq row.domain_kind kind_temporal)) [
      | inl temporal ↦
          joined_offset-nonzero (find (of_domain id) tables.temporal_parameters) o
            (sym (rw temporal) ∙ h)
      | inr foreign ↦ absurd (err_ok {v = o} (sym (rw foreign) ∙ h))
    ]

persisted-nonzero :
    (db : VaultDatabase) (id : Text) (o : ℤ)
    → persisted_temporal_state db id ≡ ok (some o)
    → eqb_ℤ o (pos 0) ≡ false
unfolding persisted_temporal_state
persisted-nonzero db id o h =
    let s =
      >>=-eq-ok (internal_connection db)
        (λ tables. domain_state id tables (find (names_domain id) tables.mapping_domains)) h in
    domain_state-nonzero id s.0 (find (names_domain id) s.0.mapping_domains) o s.2

chosen-nonzero :
    (random_below : ℤ → ℤ) (id : Text) (range : Range) (persisted : Option ℤ)
    (db written : VaultDatabase) (o : ℤ)
    → persisted_temporal_state db id ≡ ok persisted
    → chosen random_below id range persisted db ≡ ok (o, written)
    → eqb_ℤ o (pos 0) ≡ false
chosen-nonzero random_below id range (some offset) db written o before h =
    persisted-nonzero db id o (before ∙ ap (λ x. ok (some x)) (ap (λ r. r.0) (ok-injective h)))
chosen-nonzero random_below id (lower, upper) none db written o before h =
    let count = temporal_nonzero_count lower upper in
    let s1 = >>=-eq-ok (temporal_offset_at lower upper (random_below count)) _ h in
    let s2 = >>=-eq-ok (create_domain kind_temporal none none id db) _ s1.2 in
    let s3 = >>=-eq-ok (set_temporal_parameter id (integer s1.0) s2.0.1) _ s2.2 in
    let same : s1.0 ≡ o = ap (λ r. r.0) (ok-injective s3.2) in
    subst (λ x. eqb_ℤ x (pos 0) ≡ false) same (set_temporal_parameter-eq id s1.0 s2.0.1 s3.0 s3.1).0

choose_offset-nonzero :
    (random_below : ℤ → ℤ) (id : Text) (range : Range) (db written : VaultDatabase) (o : ℤ)
    → choose_offset random_below id range db ≡ ok (o, written)
    → eqb_ℤ o (pos 0) ≡ false
unfolding choose_offset
choose_offset-nonzero random_below id range db written o h =
    let s =
      >>=-eq-ok (persisted_temporal_state db id)
        (λ persisted. chosen random_below id range persisted db) h in
    chosen-nonzero random_below id range s.0 db written o s.1 s.2

within :
    (lower offset upper : ℤ)
    → (leb_ℤ lower offset && leb_ℤ offset upper) ≡ true
    → (lower ≤ℤ offset) × (offset ≤ℤ upper)
within lower offset upper h = ground arith

incompatible_some : {v : ℤ} → err offset_incompatible ≢ ok (some v)
incompatible_some h = cc

settle-eq-some :
    (d e : TemporalShiftDomain) (range : Range) (r : Result ℤ × VaultDatabase) (o : ℤ)
    (after : VaultDatabase)
    → settle d range r ≡ (ok (some o), e, after)
    → (r.0 ≡ ok o)
      × (r.1 ≡ after)
      × (range.0 ≤ℤ o)
      × (o ≤ℤ range.1)
      × (e ≡ record d { offset = some o; finalized = true })
settle-eq-some d e range (err failure, db) o after h = cc
settle-eq-some d e (lower, upper) (ok offset, db) o after h =
    elim (Bool-cases (leb_ℤ lower offset && leb_ℤ offset upper)) [
      | inl fits ↦
          let q : (ok (some offset), record d { offset = some offset; finalized = true }, db)
              ≡ (ok (some o), e, after) =
            sym (rw fits) ∙ h in
          let same : offset ≡ o = some-injective (ok-injective (ap (λ r. r.0) q)) in
          let bounds = within lower offset upper fits in
          (
            ap ok same,
            ap (λ r. r.2) q,
            subst (λ x. lower ≤ℤ x) same bounds.0,
            subst (λ x. x ≤ℤ upper) same bounds.1,
            sym (ap (λ r. r.1) q) ∙ ap (λ x. record d { offset = some x; finalized = true }) same,
          )
      | inr outside ↦
          let q : (err offset_incompatible, d, db) ≡ (ok (some o), e, after) =
            sym (rw outside) ∙ h in
          absurd (incompatible_some {v = o} (ap (λ r. r.0) q))
    ]

-- What a `finalize` that returned an offset did: the feasible interval of the observed extrema
-- holds it, it is not 0, and the transaction of the unit committed with it.
abbrev pub Finalization :
    (ℤ → ℤ)
    → TemporalShiftDomain
    → TemporalShiftDomain
    → VaultDatabase
    → VaultDatabase
    → ℤ
    → ℤ
    → Range
    → Type 0
Finalization random_below d e db after o low range =
    (temporal_feasible_interval low d.max_ordinal ≡ ok range)
    × ((range.0 ≤ℤ o) × (o ≤ℤ range.1))
    × (eqb_ℤ o (pos 0) ≡ false)
    × Committed (choose_offset random_below d.domain_id range) db o after
    × (e ≡ record d { offset = some o; finalized = true })

only_zero_some : {v : ℤ} → err only_zero_feasible ≢ ok (some v)
only_zero_some h = cc

module _ (faults : Faults) (random_below : ℤ → ℤ) (d e : TemporalShiftDomain)
    (db after : VaultDatabase) (o : ℤ) where
  allocate-eq-some :
      (low : ℤ) (r : Result Range)
      → temporal_feasible_interval low d.max_ordinal ≡ r
      → allocate faults random_below d db r ≡ (ok (some o), e, after)
      → (range : Range) × Finalization random_below d e db after o low range
  allocate-eq-some low (err failure) interval h = cc
  allocate-eq-some low (ok (lower, upper)) interval h =
      elim (Bool-cases (leb_ℤ (temporal_nonzero_count lower upper) (pos 0))) [
        | inl nothing ↦
            let q : (err only_zero_feasible, d, db) ≡ (ok (some o), e, after) =
              sym (rw nothing) ∙ h in
            absurd (only_zero_some {v = o} (ap (λ r. r.0) q))
        | inr some_left ↦
            let unit =
              in_transaction faults (choose_offset random_below d.domain_id (lower, upper)) db in
            let q : settle d (lower, upper) unit ≡ (ok (some o), e, after) =
              sym (rw some_left) ∙ h in
            let s = settle-eq-some d e (lower, upper) unit o after q in
            let c =
              in_transaction-Committed faults
                (choose_offset random_below d.domain_id (lower, upper)) db o s.0 in
            (
              (lower, upper),
              (
                interval,
                (s.2, s.3),
                choose_offset-nonzero random_below d.domain_id (lower, upper)
                    (record db { active = true }) c.0 o c.1,
                (c.0, c.1, sym s.1 ∙ c.2, c.3),
                s.4,
              ),
            )
      ]

  finalize_from-eq-some :
      (first : Option ℤ)
      → d.min_ordinal ≡ first
      → finalize_from faults random_below d db first ≡ (ok (some o), e, after)
      → (low : ℤ) × (range : Range) × (d.min_ordinal ≡ some low)
        × Finalization random_below d e db after o low range
  finalize_from-eq-some none is_first h =
      let q : ok none ≡ ok (some o) = ap (λ r. r.0) h in absurd (none-some {a = o} (ok-injective q))
  finalize_from-eq-some (some low) is_first h =
      let a = allocate-eq-some low (temporal_feasible_interval low d.max_ordinal) refl h in
      (low, a.0, is_first, a.1)

  pub finalize-eq-some :
      finalize faults random_below d db ≡ (ok (some o), e, after)
      → (low : ℤ) × (range : Range) × (d.min_ordinal ≡ some low)
        × Finalization random_below d e db after o low range
  unfolding finalize
  finalize-eq-some h = finalize_from-eq-some d.min_ordinal refl h

  -- The offset moves every ordinal between the observed extrema to one with a calendar date.
  pub finalize-fits :
      finalize faults random_below d db ≡ (ok (some o), e, after)
      → (ordinal : ℤ) → IsBetween d ordinal
      → in_logical_range (ordinal +ℤ o) ≡ true
  finalize-fits h ordinal (m, is_m, above, below) =
      let f = finalize-eq-some h in
      let same : m ≡ f.0 = some-injective (sym is_m ∙ f.2) in
      (temporal_feasible_interval_iff f.0 d.max_ordinal f.1.0 f.1.1 o f.3.0).0 f.3.1 ordinal
        (subst (λ x. x ≤ℤ ordinal) same above) below
