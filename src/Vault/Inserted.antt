-- ===== src/Vault/Inserted.antt =====
-- vault/mappings.py: what the inserts of a domain and of a temporal parameter leave.
use dbf_anonymizer.Prelude.{
  ◌≡◌, sym, ◌∙◌, ap, false, not, ◌||◌, Option, any, ℤ, pos, eqb_ℤ, Text, text_eq,
}
use dbf_anonymizer.Errors.{
  ok, value_error, ok-injective, >>=-eq-ok, >>-eq-ok, raise_if, raise_if-eq-ok,
}
use dbf_anonymizer.Values.{integer}
use dbf_anonymizer.Vault.{
  MappingDomain, Tables, VaultDatabase, internal_connection, require_active_transaction,
  require_trusted_connection, validate_token, vault_state_failure,
}
use dbf_anonymizer.Vault.Connection.{internal_connection-eq_tables}
use dbf_anonymizer.Vault.Mappings.{
  create_domain, validate_optional, domain_row, with_domain, insert_domain, has_domain, kind_text,
  kind_numeric_key, kind_temporal,
}
use dbf_anonymizer.Vault.Recovery.{
  set_temporal_parameter, insert_parameter, with_parameter, of_domain,
}

insert_domain-eq :
    (row : MappingDomain) (db : VaultDatabase) (tables : Tables) (r : Text × VaultDatabase)
    → insert_domain row db tables ≡ ok r
    → r.1 ≡ record db { tables = with_domain row tables }
insert_domain-eq row db tables r h =
    let s =
      >>-eq-ok
        (raise_if (has_domain row.domain_id tables.mapping_domains)
          (vault_state_failure "DOMAIN_REJECTED"))
        _ h in
    sym (ap (λ x. x.1) (ok-injective s.1))

-- A domain that was created is the newest row.
pub create_domain-eq :
    (kind : Text) (normalization role : Option Text) (id : Text) (db : VaultDatabase)
    (r : Text × VaultDatabase)
    → create_domain kind normalization role id db ≡ ok r
    → (require_trusted_connection db ≡ ok tt)
      × (r.1 ≡ record db { tables = with_domain (domain_row id kind normalization role) db.tables })
unfolding create_domain
create_domain-eq kind normalization role id db r h =
    let s1 = >>-eq-ok (require_active_transaction db) _ h in
    let s2 =
      >>-eq-ok
        (raise_if
          (not (
            text_eq kind kind_text
            || (text_eq kind kind_numeric_key || text_eq kind kind_temporal)))
          value_error)
        _ s1.1 in
    let s3 = >>-eq-ok (validate_token id) _ s2.1 in
    let s4 = >>-eq-ok (validate_optional normalization) _ s3.1 in
    let s5 = >>-eq-ok (validate_optional role) _ s4.1 in
    let s6 =
      >>=-eq-ok (internal_connection db) (insert_domain (domain_row id kind normalization role) db)
        s5.1 in
    let c = internal_connection-eq_tables db s6.0 s6.1 in
    (
      c.0,
      insert_domain-eq (domain_row id kind normalization role) db db.tables r
          (ap (insert_domain (domain_row id kind normalization role) db) c.1 ∙ s6.2),
    )

insert_parameter-eq :
    (id : Text) (offset : ℤ) (db : VaultDatabase) (tables : Tables) (r : Unit {0} × VaultDatabase)
    → insert_parameter id offset db tables ≡ ok r
    → r.1 ≡ record db { tables = with_parameter id offset tables }
insert_parameter-eq id offset db tables r h =
    let s =
      >>-eq-ok
        (raise_if
          (any (of_domain id) tables.temporal_parameters
            || not (has_domain id tables.mapping_domains))
          (vault_state_failure "TEMPORAL_REJECTED"))
        _ h in
    sym (ap (λ x. x.1) (ok-injective s.1))

-- A parameter that was stored is the newest row, and it is not 0.
pub set_temporal_parameter-eq :
    (id : Text) (offset : ℤ) (db : VaultDatabase) (r : Unit {0} × VaultDatabase)
    → set_temporal_parameter id (integer offset) db ≡ ok r
    → (eqb_ℤ offset (pos 0) ≡ false)
      × (require_trusted_connection db ≡ ok tt)
      × (r.1 ≡ record db { tables = with_parameter id offset db.tables })
unfolding set_temporal_parameter
set_temporal_parameter-eq id offset db r h =
    let s1 = >>-eq-ok (require_active_transaction db) _ h in
    let s2 = >>-eq-ok (validate_token id) _ s1.1 in
    let s3 = >>-eq-ok (raise_if (eqb_ℤ offset (pos 0)) value_error) _ s2.1 in
    let s4 = >>=-eq-ok (internal_connection db) (insert_parameter id offset db) s3.1 in
    let c = internal_connection-eq_tables db s4.0 s4.1 in
    (
      raise_if-eq-ok (eqb_ℤ offset (pos 0)) value_error s3.0,
      c.0,
      insert_parameter-eq id offset db db.tables r (ap (insert_parameter id offset db) c.1 ∙ s4.2),
    )
