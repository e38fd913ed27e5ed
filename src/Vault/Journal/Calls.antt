-- ===== src/Vault/Journal/Calls.antt =====
-- vault/store.py: sequences of the calls that write the journal, and what a call that returned did.
use dbf_anonymizer.Prelude.{
  ◌≡◌, sym, ap, Bool, true, false, not, Option, ◌∷◌, ||-false, any, keep, not-false, Text,
}
use dbf_anonymizer.Errors.{ok, ok-injective, >>-eq-ok, raise_if, raise_if-eq-ok}
use dbf_anonymizer.Vault.{VaultDatabase, require_active_transaction, validate_token}
use dbf_anonymizer.Vault.Journal.{
  Binding, has_id, has_destination, started_row, begin_operation, is_open, complete_rows,
  completed_row, complete_operation, of_operation, abandon_operation, record_publication,
  check_given,
}

-- The calls that write the journal, each from the vault that the last one returned.
pub data JournalRun (db : VaultDatabase) : VaultDatabase → Type 0 where
  idle : JournalRun db db
  begun :
      {m t : VaultDatabase} (id : Text) (is_fresh : Bool) (b : Binding) (now returned : Text)
      → JournalRun db m
      → begin_operation id is_fresh b now m ≡ ok (returned, t)
      → JournalRun db t
  ended :
      {m t : VaultDatabase} (id : Text) (output result : Option Text) (now : Text)
      → JournalRun db m
      → complete_operation id output result now m ≡ ok (tt, t)
      → JournalRun db t
  abandoned :
      {m t : VaultDatabase} (id : Text)
      → JournalRun db m
      → abandon_operation id m ≡ ok (tt, t)
      → JournalRun db t
  published :
      {m t : VaultDatabase} (id phase : Text) (output vault : Option Text)
      → JournalRun db m
      → record_publication id phase output vault m ≡ ok (tt, t)
      → JournalRun db t

returned_state : {A B : Type 0} {x y : A × B} → ok x ≡ ok y → y.1 ≡ x.1
returned_state h = sym (ap (λ r. r.1) (ok-injective h))

pub begin_operation-ok :
    (id : Text) (is_fresh : Bool) (b : Binding) (now returned : Text) (m t : VaultDatabase)
    → begin_operation id is_fresh b now m ≡ ok (returned, t)
    → (any (has_id id) m.tables.operations ≡ false)
      × (any (has_destination b.destination_identity) m.tables.operations ≡ false)
      × (t ≡ record m {
        tables = record m.tables { operations = started_row id b now ∷ m.tables.operations };
      })
unfolding begin_operation
begin_operation-ok id is_fresh b now returned m t h =
    let active = >>-eq-ok (require_active_transaction m) _ h in
    let given = >>-eq-ok (check_given id is_fresh m) _ active.1 in
    let inserted = >>-eq-ok (raise_if _ _) _ given.1 in
    let free = ||-false _ _ (raise_if-eq-ok _ _ inserted.0) in
    (free.0, free.1, returned_state inserted.1)

pub complete_operation-ok :
    (id : Text) (output result : Option Text) (now : Text) (m t : VaultDatabase)
    → complete_operation id output result now m ≡ ok (tt, t)
    → t ≡ record m {
      tables = record m.tables {
        operations = complete_rows id (completed_row output result now) m.tables.operations;
      };
    }
unfolding complete_operation
complete_operation-ok id output result now m t h =
    let active = >>-eq-ok (require_active_transaction m) _ h in
    let found = >>-eq-ok (raise_if _ _) _ active.1 in returned_state found.1

pub abandon_operation-ok :
    (id : Text) (m t : VaultDatabase)
    → abandon_operation id m ≡ ok (tt, t)
    → t ≡ record m {
      tables = record m.tables {
        publication = keep (λ row. not (of_operation id row)) m.tables.publication;
        operations = keep (λ row. not (is_open id row)) m.tables.operations;
      };
    }
unfolding abandon_operation
abandon_operation-ok id m t h =
    let active = >>-eq-ok (require_active_transaction m) _ h in
    let found = >>-eq-ok (raise_if _ _) _ active.1 in returned_state found.1

pub record_publication-ok :
    (id phase : Text) (output vault : Option Text) (m t : VaultDatabase)
    → record_publication id phase output vault m ≡ ok (tt, t)
    → (any (has_id id) m.tables.operations ≡ true)
      × (t ≡ record m {
        tables = record m.tables {
          publication =
              record {
                operation_id = id;
                phase = phase;
                output_fingerprint = output;
                vault_fingerprint = vault;
              }
              ∷ m.tables.publication;
        };
      })
unfolding record_publication
record_publication-ok id phase output vault m t h =
    let active = >>-eq-ok (require_active_transaction m) _ h in
    let named = >>-eq-ok (validate_token phase) _ active.1 in
    let inserted = >>-eq-ok (raise_if _ _) _ named.1 in
    let free = ||-false _ _ (raise_if-eq-ok _ _ inserted.0) in
    (not-false _ free.1, returned_state inserted.1)
