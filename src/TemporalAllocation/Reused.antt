-- ===== src/TemporalAllocation/Reused.antt =====
-- vault/temporal_allocation.py: the committed offset is the one that later runs and recovery read.
use mathlib.Core.Path.{subst}
use dbf_anonymizer.Prelude.{
  ◌≡◌, refl, sym, ◌∙◌, ap, Bool, true, false, Option, none, some, find, find_here, if◌then◌else◌, ℤ,
  pos, eqb_ℤ, Text, text_eq, text_eq_refl,
}
use dbf_anonymizer.Errors.{err, ok, ok-injective, ◌>>=◌, >>=-eq-ok}
use dbf_anonymizer.Values.{integer}
use dbf_anonymizer.Temporal.{temporal_nonzero_count, temporal_offset_at}
use dbf_anonymizer.Vault.{
  VaultDatabase, Faults, integer_cell, Tables, MappingDomain, internal_connection,
  require_trusted_connection,
}
use dbf_anonymizer.Vault.Atomicity.{Committed}
use dbf_anonymizer.Vault.Connection.{internal_connection-trusted, internal_connection-eq_tables}
use dbf_anonymizer.Vault.Mappings.{create_domain, kind_temporal, domain_row, with_domain}
use dbf_anonymizer.Vault.Recovery.{set_temporal_parameter, of_domain, with_parameter}
use dbf_anonymizer.Vault.Inserted.{create_domain-eq, set_temporal_parameter-eq}
use dbf_anonymizer.TemporalAllocation.{
  TemporalShiftDomain, Range, finalize, choose_offset, chosen, persisted_temporal_state,
  names_domain, domain_state, joined_offset, corrupt_state,
}
use dbf_anonymizer.TemporalAllocation.Finalized.{finalize-eq-some}

-- the tables of a domain that was just created, with its parameter
abbrev allocated : Text → ℤ → Tables → Tables
allocated id o tables =
    with_parameter id o (with_domain (domain_row id kind_temporal none none) tables)

abbrev with_the_parameter : Text → ℤ → VaultDatabase → VaultDatabase
with_the_parameter id o db = record db { tables = with_parameter id o db.tables }

allocated-persisted :
    (id : Text) (o : ℤ) (db : VaultDatabase)
    → require_trusted_connection db ≡ ok tt
    → eqb_ℤ o (pos 0) ≡ false
    → persisted_temporal_state (record db { tables = allocated id o db.tables }) id ≡ ok (some o)
unfolding persisted_temporal_state require_trusted_connection
allocated-persisted id o db trusted other =
    let rows = db.tables.mapping_domains in
    let params = db.tables.temporal_parameters in
    let after : VaultDatabase = record db { tables = allocated id o db.tables } in
    let domain =
      find_here (names_domain id) (domain_row id kind_temporal none none) rows (text_eq_refl id) in
    let parameter =
      find_here (of_domain id) (record { domain_id = id; offset_days = integer_cell o }) params
        (text_eq_refl id) in
    rw (internal_connection-trusted after trusted, domain, parameter, other)

-- the persisted state does not look at the transaction
persisted-active :
    (db : VaultDatabase) (active : Bool) (id : Text)
    → persisted_temporal_state (record db { active = active }) id ≡ persisted_temporal_state db id
unfolding persisted_temporal_state internal_connection require_trusted_connection
persisted-active db active id = refl

chosen-persisted :
    (random_below : ℤ → ℤ) (id : Text) (range : Range) (persisted : Option ℤ)
    (db written : VaultDatabase) (o : ℤ)
    → persisted_temporal_state db id ≡ ok persisted
    → chosen random_below id range persisted db ≡ ok (o, written)
    → persisted_temporal_state written id ≡ ok (some o)
chosen-persisted random_below id range (some offset) db written o before h =
    let q = ok-injective h in subst (λ x. persisted_temporal_state x.1 id ≡ ok (some x.0)) q before
chosen-persisted random_below id (lower, upper) none db written o before h =
    let count = temporal_nonzero_count lower upper in
    let s1 = >>=-eq-ok (temporal_offset_at lower upper (random_below count)) _ h in
    let s2 = >>=-eq-ok (create_domain kind_temporal none none id db) _ s1.2 in
    let s3 = >>=-eq-ok (set_temporal_parameter id (integer s1.0) s2.0.1) _ s2.2 in
    let created = create_domain-eq kind_temporal none none id db s2.0 s2.1 in
    let stored = set_temporal_parameter-eq id s1.0 s2.0.1 s3.0 s3.1 in
    let is_written : s3.0.1 ≡ record db { tables = allocated id s1.0 db.tables } =
      stored.2 ∙ ap (with_the_parameter id s1.0) created.1 in
    subst (λ x. persisted_temporal_state x.1 id ≡ ok (some x.0)) (ok-injective s3.2)
      (ap (λ x. persisted_temporal_state x id) is_written
        ∙ allocated-persisted id s1.0 db created.0 stored.0)

-- After the unit of `finalize` committed, the persisted state of the domain is its offset.
pub Committed-persisted :
    (random_below : ℤ → ℤ) (id : Text) (range : Range) (db after : VaultDatabase) (o : ℤ)
    → Committed (choose_offset random_below id range) db o after
    → persisted_temporal_state after id ≡ ok (some o)
unfolding choose_offset
Committed-persisted random_below id range db after o (written, ran, is_after, admitted) =
    let begun : VaultDatabase = record db { active = true } in
    let s =
      >>=-eq-ok (persisted_temporal_state begun id)
        (λ persisted. chosen random_below id range persisted begun) ran in
    ap (λ x. persisted_temporal_state x id) is_after
    ∙ persisted-active written false id
    ∙ chosen-persisted random_below id range s.0 begun written o s.1 s.2

choose_offset-persisted :
    (random_below : ℤ → ℤ) (id : Text) (range : Range) (db written : VaultDatabase) (o p : ℤ)
    → persisted_temporal_state db id ≡ ok (some p)
    → choose_offset random_below id range db ≡ ok (o, written)
    → o ≡ p
unfolding choose_offset
choose_offset-persisted random_below id range db written o p before h =
    let q : chosen random_below id range (some p) db ≡ ok (o, written) =
      sym (ap (λ r. r >>= λ persisted. chosen random_below id range persisted db) before) ∙ h in
    sym (ap (λ r. r.0) (ok-injective q))

domain_state-agrees :
    (id : Text) (a b : Tables) (row : Option MappingDomain)
    → find (of_domain id) a.temporal_parameters ≡ find (of_domain id) b.temporal_parameters
    → domain_state id a row ≡ domain_state id b row
domain_state-agrees id a b none same = refl
domain_state-agrees id a b (some row) same =
    ap (λ p. if text_eq row.domain_kind kind_temporal then joined_offset p else err corrupt_state)
      same

-- two connections that find the same rows of the domain read the same offset
persisted-agrees :
    (id : Text) (a b : VaultDatabase) (x y : Option ℤ)
    → find (names_domain id) b.tables.mapping_domains
      ≡ find (names_domain id) a.tables.mapping_domains
    → find (of_domain id) b.tables.temporal_parameters
      ≡ find (of_domain id) a.tables.temporal_parameters
    → persisted_temporal_state a id ≡ ok x
    → persisted_temporal_state b id ≡ ok y
    → y ≡ x
unfolding persisted_temporal_state
persisted-agrees id a b x y domain parameter first second =
    let f = >>=-eq-ok (internal_connection a) _ first in
    let g = >>=-eq-ok (internal_connection b) _ second in
    let here = (internal_connection-eq_tables a f.0 f.1).1 in
    let there = (internal_connection-eq_tables b g.0 g.1).1 in
    let rows : find (names_domain id) g.0.mapping_domains
        ≡ find (names_domain id) f.0.mapping_domains =
      cc (here, there, domain) in
    let parameters : find (of_domain id) g.0.temporal_parameters
        ≡ find (of_domain id) f.0.temporal_parameters =
      cc (here, there, parameter) in
    ok-injective (
      sym g.2
      ∙ ap (domain_state id g.0) rows
      ∙ domain_state-agrees id g.0 f.0 (find (names_domain id) f.0.mapping_domains) parameters
      ∙ f.2)

-- Reuse before randomness: once a `finalize` has returned an offset, a later `finalize` of the
-- same domain identity that returns an offset returns that one, whatever its own observations, its
-- random numbers and its faults are, on any later state of the vault, of any connection, in which
-- the domain's row and its temporal parameter are found as the first call left them.
pub finalize_reuses :
    (faults later_faults : Faults) (random_below later_random : ℤ → ℤ)
    (d e later later2 : TemporalShiftDomain) (db after reopened after2 : VaultDatabase) (o p : ℤ)
    → finalize faults random_below d db ≡ (ok (some o), e, after)
    → later.domain_id ≡ d.domain_id
    → find (names_domain d.domain_id) reopened.tables.mapping_domains
      ≡ find (names_domain d.domain_id) after.tables.mapping_domains
    → find (of_domain d.domain_id) reopened.tables.temporal_parameters
      ≡ find (of_domain d.domain_id) after.tables.temporal_parameters
    → finalize later_faults later_random later reopened ≡ (ok (some p), later2, after2)
    → p ≡ o
unfolding choose_offset
finalize_reuses faults later_faults random_below later_random d e later later2 db after reopened
      after2 o p first same domain parameter second =
    let f = finalize-eq-some faults random_below d e db after o first in
    let g = finalize-eq-some later_faults later_random later later2 reopened after2 p second in
    let kept = Committed-persisted random_below d.domain_id f.1 db after o f.3.3 in
    let begun : VaultDatabase = record reopened { active = true } in
    let s =
      >>=-eq-ok (persisted_temporal_state begun later.domain_id)
        (λ persisted. chosen later_random later.domain_id g.1 persisted begun) g.3.3.1 in
    let read : persisted_temporal_state begun d.domain_id ≡ ok s.0 =
      ap (persisted_temporal_state begun) (sym same) ∙ s.1 in
    let found = persisted-agrees d.domain_id after begun (some o) s.0 domain parameter kept read in
    choose_offset-persisted later_random later.domain_id g.1 begun g.3.3.0 p o (s.1 ∙ ap ok found)
      g.3.3.1
