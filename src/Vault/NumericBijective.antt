-- ===== src/Vault/NumericBijective.antt =====
-- vault/mappings.py: the rows of a numeric key domain are a bijection that inserts extend.
use dbf_anonymizer.Prelude.{
  not-false, ◌≡◌, ◌≢◌, refl, sym, ◌∙◌, ap, inl, inr, ◌↔◌, true, false, not, ◌&&◌, ◌||◌, Bool-cases,
  &&-parts, none, some, List, [], ◌∷◌, arith, any, find_here, find_later, find-none, Text, text_eq,
  text_eq→eq, text_eq_refl,
}
use dbf_anonymizer.Errors.{
  ok, ok-injective, >>=-eq-ok, >>-eq-ok, raise_if, raise_if-eq-ok, value_error,
}
use dbf_anonymizer.CanonicalText.{is_canonical}
use dbf_anonymizer.Vault.{
  text_cell, NumericKeyMapping, VaultDatabase, require_trusted_connection,
  require_active_transaction, validate_token, internal_connection,
}
use dbf_anonymizer.Vault.Connection.{internal_connection-eq_tables, internal_connection-trusted}
use dbf_anonymizer.Vault.Mappings.{has_domain, mapping_failure}
use dbf_anonymizer.Vault.NumericMappings.{
  insert_numeric_row, numeric_row_clashes, with_original, with_pseudonym, pseudonym_in, original_in,
  fetched_numeric, validated_numeric_row, pseudonym_of, original_of, with_numeric_row,
  add_numeric_key_mapping, validate_canonical_numeric_text, get_numeric_pseudonym,
  get_numeric_original,
}

-- a row that an insert stores
abbrev stored : Text → Text → Text → NumericKeyMapping
stored domain_id original pseudonym = record {
  domain_id = domain_id;
  original_value = text_cell original;
  pseudonym_value = text_cell pseudonym;
}

-- Each direction of the rows undoes the other, in every domain.
abbrev pub IsBijection : List NumericKeyMapping → Type 0
IsBijection rows =
    (d o p : Text) → (pseudonym_in rows d o ≡ ok (some p)) ↔ (original_in rows d p ≡ ok (some o))

both_eq : (a b c d : Text) → (text_eq a b && text_eq c d) ≡ true → (a ≡ b) × (c ≡ d)
both_eq a b c d h =
    let parts = &&-parts (text_eq a b) (text_eq c d) h in
    (text_eq→eq a b parts.0, text_eq→eq c d parts.1)

row_injective : {a b : Text} → ok (some a) ≡ ok (some b) → a ≡ b
row_injective h = cc

no_row-row : {a : Text} → ok none ≢ ok (some a)
no_row-row h = cc

fetched_canonical :
    (t : Text) → is_canonical t ≡ true → fetched_numeric (some (text_cell t)) ≡ ok (some t)
unfolding fetched_numeric validated_numeric_row
fetched_canonical t h = ground (arith, h)

no_original :
    (d o p : Text) (rows : List NumericKeyMapping)
    → numeric_row_clashes d o p rows ≡ false
    → any (with_original d o) rows ≡ false
no_original d o p [] h = refl
no_original d o p (row ∷ rows) h = ground (arith, h, no_original d o p rows)

no_pseudonym :
    (d o p : Text) (rows : List NumericKeyMapping)
    → numeric_row_clashes d o p rows ≡ false
    → any (with_pseudonym d p) rows ≡ false
no_pseudonym d o p [] h = refl
no_pseudonym d o p (row ∷ rows) h = ground (arith, h, no_pseudonym d o p rows)

module _ (d o p : Text) (rows : List NumericKeyMapping)
    (canonical : (is_canonical o ≡ true) × (is_canonical p ≡ true)) where
  stored_original : pseudonym_in (stored d o p ∷ rows) d o ≡ ok (some p)
  stored_original =
      ap (λ r. fetched_numeric (pseudonym_of r))
        (find_here (with_original d o) (stored d o p) rows (rw (text_eq_refl d, text_eq_refl o)))
      ∙ fetched_canonical p canonical.1

  stored_pseudonym : original_in (stored d o p ∷ rows) d p ≡ ok (some o)
  stored_pseudonym =
      ap (λ r. fetched_numeric (original_of r))
        (find_here (with_pseudonym d p) (stored d o p) rows (rw (text_eq_refl d, text_eq_refl p)))
      ∙ fetched_canonical o canonical.0

  other_original :
      (e q : Text)
      → (text_eq d e && text_eq o q) ≡ false
      → pseudonym_in (stored d o p ∷ rows) e q ≡ pseudonym_in rows e q
  other_original e q h =
      ap (λ r. fetched_numeric (pseudonym_of r))
        (find_later (with_original e q) (stored d o p) rows h)

  other_pseudonym :
      (e q : Text)
      → (text_eq d e && text_eq p q) ≡ false
      → original_in (stored d o p ∷ rows) e q ≡ original_in rows e q
  other_pseudonym e q h =
      ap (λ r. fetched_numeric (original_of r))
        (find_later (with_pseudonym e q) (stored d o p) rows h)

  module _ (clean : numeric_row_clashes d o p rows ≡ false) where
    fresh_original : pseudonym_in rows d o ≡ ok none
    unfolding fetched_numeric
    fresh_original =
        ap (λ r. fetched_numeric (pseudonym_of r))
          (find-none (with_original d o) rows (no_original d o p rows clean))

    fresh_pseudonym : original_in rows d p ≡ ok none
    unfolding fetched_numeric
    fresh_pseudonym =
        ap (λ r. fetched_numeric (original_of r))
          (find-none (with_pseudonym d p) rows (no_pseudonym d o p rows clean))

    forth :
        IsBijection rows
        → (e q r : Text) → pseudonym_in (stored d o p ∷ rows) e q ≡ ok (some r)
        → original_in (stored d o p ∷ rows) e r ≡ ok (some q)
    forth old e q r h = elim (Bool-cases (text_eq d e && text_eq o q)) [
      | inl same ↦
          let eqs = both_eq d e o q same in
          let is_p : p ≡ r = row_injective (
            sym stored_original
            ∙ ap (λ x. pseudonym_in (stored d o p ∷ rows) x o) eqs.0
            ∙ ap (pseudonym_in (stored d o p ∷ rows) e) eqs.1
            ∙ h) in
          rw (sym eqs.0, sym eqs.1, sym is_p) stored_pseudonym
      | inr other ↦
          let before = (old e q r).0 (sym (other_original e q other) ∙ h) in
          elim (Bool-cases (text_eq d e && text_eq p r)) [
            | inl taken ↦
                let eqs = both_eq d e p r taken in
                absurd (no_row-row {a = q} (sym fresh_pseudonym ∙ rw (eqs.0, eqs.1) before))
            | inr apart ↦ other_pseudonym e r apart ∙ before
          ]
    ]

    back :
        IsBijection rows
        → (e q r : Text) → original_in (stored d o p ∷ rows) e r ≡ ok (some q)
        → pseudonym_in (stored d o p ∷ rows) e q ≡ ok (some r)
    back old e q r h = elim (Bool-cases (text_eq d e && text_eq p r)) [
      | inl same ↦
          let eqs = both_eq d e p r same in
          let is_o : o ≡ q = row_injective (
            sym stored_pseudonym
            ∙ ap (λ x. original_in (stored d o p ∷ rows) x p) eqs.0
            ∙ ap (original_in (stored d o p ∷ rows) e) eqs.1
            ∙ h) in
          rw (sym eqs.0, sym eqs.1, sym is_o) stored_original
      | inr other ↦
          let before = (old e q r).1 (sym (other_pseudonym e r other) ∙ h) in
          elim (Bool-cases (text_eq d e && text_eq o q)) [
            | inl taken ↦
                let eqs = both_eq d e o q taken in
                absurd (no_row-row {a = r} (sym fresh_original ∙ rw (eqs.0, eqs.1) before))
            | inr apart ↦ other_original e q apart ∙ before
          ]
    ]

-- A row that a lookup found stays the one that it finds, when a pair is stored that clashes with none.
pub stored-keeps :
    (d o p : Text) (rows : List NumericKeyMapping)
    → (is_canonical o ≡ true) × (is_canonical p ≡ true)
    → numeric_row_clashes d o p rows ≡ false
    → (e q r : Text) → pseudonym_in rows e q ≡ ok (some r)
    → pseudonym_in (stored d o p ∷ rows) e q ≡ ok (some r)
stored-keeps d o p rows canonical clean e q r h = elim (Bool-cases (text_eq d e && text_eq o q)) [
  | inl same ↦
      let eqs = both_eq d e o q same in
      absurd
        (no_row-row {a = r} (sym (fresh_original d o p rows canonical clean) ∙ rw (eqs.0, eqs.1) h))
  | inr other ↦ other_original d o p rows canonical e q other ∙ h
]

-- Storing a pair of canonical texts that no row of the domain clashes with keeps every domain a
-- bijection.
pub stored-IsBijection :
    (d o p : Text) (rows : List NumericKeyMapping)
    → (is_canonical o ≡ true) × (is_canonical p ≡ true)
    → numeric_row_clashes d o p rows ≡ false
    → IsBijection rows
    → IsBijection (stored d o p ∷ rows)
stored-IsBijection d o p rows canonical clean old e q r =
    (forth d o p rows canonical clean old e q r, back d o p rows canonical clean old e q r)

insert_numeric_row-stored :
    (d o p : Text) (db written : VaultDatabase)
    → insert_numeric_row d o p db db.tables ≡ ok (tt, written)
    → (numeric_row_clashes d o p db.tables.numeric_key_mappings ≡ false)
      × (written ≡ record db { tables = with_numeric_row d o p db.tables })
insert_numeric_row-stored d o p db written h =
    let s =
      >>-eq-ok
        (raise_if
          (not (has_domain d db.tables.mapping_domains)
            || numeric_row_clashes d o p db.tables.numeric_key_mappings)
          (mapping_failure "MAPPING_BIJECTION_REJECTED"))
        (ok (tt, record db { tables = with_numeric_row d o p db.tables })) h in
    let test = raise_if-eq-ok _ _ s.0 in
    (ground (arith, test), sym (ap (λ r. r.1) (ok-injective s.1)))

-- A successful insert: its guards passed, and it stored the row.
pub add_numeric_key_mapping-stored :
    (d o p : Text) (db written : VaultDatabase)
    → add_numeric_key_mapping d o p db ≡ ok (tt, written)
    → ((is_canonical o ≡ true) × (is_canonical p ≡ true))
      × (numeric_row_clashes d o p db.tables.numeric_key_mappings ≡ false)
      × (require_trusted_connection db ≡ ok tt)
      × (written ≡ record db { tables = with_numeric_row d o p db.tables })
unfolding add_numeric_key_mapping internal_connection validate_canonical_numeric_text
add_numeric_key_mapping-stored d o p db written h =
    let s1 = >>-eq-ok (require_active_transaction db) _ h in
    let s2 = >>-eq-ok (validate_token d) _ s1.1 in
    let s3 = >>-eq-ok (raise_if (not (is_canonical o)) value_error) _ s2.1 in
    let s4 = >>-eq-ok (raise_if (not (is_canonical p)) value_error) _ s3.1 in
    let s5 = >>=-eq-ok (internal_connection db) (insert_numeric_row d o p db) s4.1 in
    let conn = internal_connection-eq_tables db s5.0 s5.1 in
    let there : insert_numeric_row d o p db db.tables ≡ ok (tt, written) =
      ap (insert_numeric_row d o p db) conn.1 ∙ s5.2 in
    let stored_row = insert_numeric_row-stored d o p db written there in
    (
      (
        not-false (is_canonical o) (raise_if-eq-ok _ value_error s3.0),
        not-false (is_canonical p) (raise_if-eq-ok _ value_error s4.0),
      ),
      stored_row.0,
      conn.0,
      stored_row.1,
    )

abbrev after : Text → Text → Text → VaultDatabase → VaultDatabase
after d o p db = record db { tables = with_numeric_row d o p db.tables }

lookup_pseudonym :
    (d o p : Text) (db : VaultDatabase)
    → (is_canonical o ≡ true) × (is_canonical p ≡ true)
    → require_trusted_connection db ≡ ok tt
    → get_numeric_pseudonym (after d o p db) d o ≡ ok (some p)
unfolding get_numeric_pseudonym require_trusted_connection
lookup_pseudonym d o p db canonical trusted =
    rw (internal_connection-trusted (after d o p db) trusted)
      (stored_original d o p db.tables.numeric_key_mappings canonical)

lookup_original :
    (d o p : Text) (db : VaultDatabase)
    → (is_canonical o ≡ true) × (is_canonical p ≡ true)
    → require_trusted_connection db ≡ ok tt
    → get_numeric_original (after d o p db) d p ≡ ok (some o)
unfolding get_numeric_original require_trusted_connection
lookup_original d o p db canonical trusted =
    rw (internal_connection-trusted (after d o p db) trusted)
      (stored_pseudonym d o p db.tables.numeric_key_mappings canonical)

-- A successful insert keeps the bijection of every numeric domain and answers both lookups with the
-- pair that it was given.
pub add_numeric_key_mapping-IsBijection :
    (d o p : Text) (db written : VaultDatabase)
    → add_numeric_key_mapping d o p db ≡ ok (tt, written)
    → IsBijection db.tables.numeric_key_mappings
    → IsBijection written.tables.numeric_key_mappings
      × (get_numeric_pseudonym written d o ≡ ok (some p))
      × (get_numeric_original written d p ≡ ok (some o))
add_numeric_key_mapping-IsBijection d o p db written h old =
    let s = add_numeric_key_mapping-stored d o p db written h in
    let rows = db.tables.numeric_key_mappings in
    rw s.3 (
      stored-IsBijection d o p rows s.0 s.1 old,
      lookup_pseudonym d o p db s.0 s.2,
      lookup_original d o p db s.0 s.2,
    )
