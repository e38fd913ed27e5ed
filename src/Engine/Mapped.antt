-- ===== src/Engine/Mapped.antt =====
-- engine/pass1.py: what a `_finalize_numeric` that returned leaves in the vault.
use mathlib.Core.Path.{subst}
use dbf_anonymizer.Prelude.{◌≡◌, refl, sym, ◌∙◌, ap, true, false, Bool, Option, none, some, ℤ, Text}
use dbf_anonymizer.Errors.{ok, ok-injective, >>=-eq-ok}
use dbf_anonymizer.Values.{text}
use dbf_anonymizer.CanonicalText.{int_text, parse_canonical_integer_text}
use dbf_anonymizer.Vault.{
  VaultDatabase, Faults, in_transaction, internal_connection, require_trusted_connection,
}
use dbf_anonymizer.Vault.Atomicity.{in_transaction-Committed}
use dbf_anonymizer.Vault.Connection.{internal_connection-eq_tables, internal_connection-trusted}
use dbf_anonymizer.Vault.NumericMappings.{
  with_numeric_row, pseudonym_in, get_numeric_pseudonym, add_numeric_key_mapping,
}
use dbf_anonymizer.Vault.NumericBijective.{
  IsBijection, stored-keeps, add_numeric_key_mapping-stored, add_numeric_key_mapping-IsBijection,
}
use dbf_anonymizer.Engine.NumericFinalization.{stored_unless, persist}

abbrev pub Rows : VaultDatabase → Type 0
Rows db = IsBijection db.tables.numeric_key_mappings

-- an original of the domain that has its row
abbrev pub IsMapped : Text → VaultDatabase → Text → Type 0
IsMapped domain_id db t = (p : Text) × (get_numeric_pseudonym db domain_id t ≡ ok (some p))

-- a step of the vault that loses no row of the domain and keeps the bijection
pub record Extends (domain_id : Text) (before after : VaultDatabase) : Type 0 where
  pub mapped : (t : Text) → IsMapped domain_id before t → IsMapped domain_id after t
  pub rows : Rows after

module _ (domain_id : Text) where
  pub Extends-refl : (db : VaultDatabase) → Rows db → Extends domain_id db db
  Extends-refl db rows = record { mapped = λ t m. m; rows = rows }

  pub Extends-trans :
      (a b c : VaultDatabase)
      → Extends domain_id a b
      → Extends domain_id b c
      → Extends domain_id a c
  Extends-trans a b c first second = record {
    mapped = λ t m. second.mapped t (first.mapped t m);
    rows = second.rows;
  }

  -- `active` is nothing that a lookup reads
  pub active_too :
      (db : VaultDatabase) (b : Bool) (t : Text)
      → get_numeric_pseudonym (record db { active = b }) domain_id t
        ≡ get_numeric_pseudonym db domain_id t
  unfolding get_numeric_pseudonym internal_connection require_trusted_connection
  active_too db b t = refl

  abbrev stored_in : Text → Text → VaultDatabase → VaultDatabase
  stored_in o p db = record db { tables = with_numeric_row domain_id o p db.tables }

  add-Extends :
      (o p : Text) (db written : VaultDatabase)
      → Rows db
      → add_numeric_key_mapping domain_id o p db ≡ ok (tt, written)
      → Extends domain_id db written × IsMapped domain_id written o
  unfolding get_numeric_pseudonym require_trusted_connection
  add-Extends o p db written rows h =
      let s = add_numeric_key_mapping-stored domain_id o p db written h in
      let kept = add_numeric_key_mapping-IsBijection domain_id o p db written h rows in
      (
        record {
          mapped = λ t m.
              let f = >>=-eq-ok (internal_connection db) _ m.1 in
              let conn = internal_connection-eq_tables db f.0 f.1 in
              let old : pseudonym_in db.tables.numeric_key_mappings domain_id t ≡ ok (some m.0) =
                ap (λ tables. pseudonym_in tables.numeric_key_mappings domain_id t) conn.1 ∙ f.2 in
              let now =
                stored-keeps domain_id o p db.tables.numeric_key_mappings s.0 s.1 domain_id t m.0
                  old in
              (
                m.0,
                subst (λ w. get_numeric_pseudonym w domain_id t ≡ ok (some m.0)) (sym s.3)
                    (rw (internal_connection-trusted (stored_in o p db) s.2) now),
              );
          rows = kept.0;
        },
        (p, kept.1),
      )

  stored_unless-Extends :
      (canonical : Text) (value candidate : ℤ) (db written : VaultDatabase) (fresh : Option Text)
      → Rows db
      → int_text value ≡ canonical
      → get_numeric_pseudonym db domain_id canonical ≡ ok fresh
      → stored_unless domain_id value candidate db fresh ≡ ok (tt, written)
      → Extends domain_id db written × IsMapped domain_id written canonical
  stored_unless-Extends canonical value candidate db written none rows same found h =
      let r = add-Extends (int_text value) (int_text candidate) db written rows h in
      (r.0, subst (IsMapped domain_id written) same r.1)
  stored_unless-Extends canonical value candidate db written (some t) rows same found h =
      let s = >>=-eq-ok (parse_canonical_integer_text (text t)) _ h in
      let there : db ≡ written = ap (λ (r : Unit {0} × VaultDatabase). r.1) (ok-injective s.2) in
      subst (λ w. Extends domain_id db w × IsMapped domain_id w canonical) there
        (Extends-refl db rows, (t, found))

  -- the body of the unit, in either case
  persist-Extends :
      (canonical : Text) (value candidate : ℤ) (db written : VaultDatabase)
      → Rows db
      → int_text value ≡ canonical
      → persist domain_id canonical value candidate db ≡ ok (tt, written)
      → Extends domain_id db written × IsMapped domain_id written canonical
  unfolding persist
  persist-Extends canonical value candidate db written rows same h =
      let s = >>=-eq-ok (get_numeric_pseudonym db domain_id canonical) _ h in
      stored_unless-Extends canonical value candidate db written s.0 rows same s.1 s.2

  -- the vault after the unit that stored
  pub unit-Extends :
      (faults : Faults) (canonical : Text) (value candidate : ℤ) (db : VaultDatabase)
      → Rows db
      → int_text value ≡ canonical
      → (in_transaction faults (persist domain_id canonical value candidate) db).0 ≡ ok tt
      → Extends domain_id db
          (in_transaction faults (persist domain_id canonical value candidate) db).1
        × IsMapped domain_id
            (in_transaction faults (persist domain_id canonical value candidate) db).1
            canonical
  unit-Extends faults canonical value candidate db rows same h =
      let body = persist domain_id canonical value candidate in
      let c = in_transaction-Committed faults body db tt h in
      let opened : VaultDatabase = record db { active = true } in
      let inner = persist-Extends canonical value candidate opened c.0 rows same c.1 in
      let ended : Extends domain_id db (record c.0 { active = false })
          × IsMapped domain_id (record c.0 { active = false }) canonical =
        (
          record {
            mapped = λ t m.
                let there = inner.0.mapped t (m.0, active_too db true t ∙ m.1) in
                (there.0, active_too c.0 false t ∙ there.1);
            rows = inner.0.rows;
          },
          (inner.1.0, active_too c.0 false canonical ∙ inner.1.1),
        ) in
      subst (λ w. Extends domain_id db w × IsMapped domain_id w canonical) (sym c.2) ended
