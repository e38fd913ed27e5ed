-- ===== src/Vault/Journal.antt =====
-- vault/store.py: the operation journal and the publication phases. The clock is an argument; a
-- constraint that SQLite refuses is a test before the row is stored.
pub mod Calls
pub mod Valid
pub mod Final
use dbf_anonymizer.Prelude.{
  Bool, true, false, not, ◌&&◌, ◌||◌, Option, none, some, List, [], ◌∷◌, if◌then◌else◌, any, find,
  keep, Text, text_eq,
}
use dbf_anonymizer.Errors.{Result, ok, ◌>>=◌, ◌>>◌, raise_if}
use dbf_anonymizer.Vault.{
  OperationState, started, completed, Operation, Publication, VaultDatabase, validate_token,
  vault_state_failure, internal_connection, require_active_transaction,
}

-- the fingerprints and identities that an operation is bound to
pub record Binding : Type 0 where
  pub source_fingerprint : Option Text
  pub policy_fingerprint : Option Text
  pub relationship_fingerprint : Option Text
  pub vault_fingerprint : Option Text
  pub destination_identity : Option Text
  pub binding_fingerprint : Option Text

abbrev pub has_id : Text → Operation → Bool
has_id operation_id row = text_eq row.operation_id operation_id

-- NULL destinations never clash in the UNIQUE index
abbrev pub same_destination : Option Text → Option Text → Bool
same_destination (some a) (some b) = text_eq a b
same_destination _ _ = false

abbrev pub has_destination : Option Text → Operation → Bool
has_destination destination row = same_destination row.destination_identity destination

abbrev pub started_row : Text → Binding → Text → Operation
started_row operation_id b now = record {
  operation_id = operation_id;
  state = started;
  source_fingerprint = b.source_fingerprint;
  policy_fingerprint = b.policy_fingerprint;
  relationship_fingerprint = b.relationship_fingerprint;
  vault_fingerprint = b.vault_fingerprint;
  destination_identity = b.destination_identity;
  binding_fingerprint = b.binding_fingerprint;
  output_fingerprint = none;
  result_json = none;
  started_at = some now;
  completed_at = none;
}

-- a fresh identifier where none is given, or a given one that no row has
abbrev pub check_given : Text → Bool → VaultDatabase → Result (Unit {0})
check_given operation_id true db = ok tt
check_given operation_id false db = do
  validate_token operation_id
  tables ← internal_connection db
  raise_if (any (has_id operation_id) tables.operations) (vault_state_failure "OPERATION_EXISTS")

-- `is_fresh` says that `operation_id` was not given but made here
unfoldable pub begin_operation :
    Text → Bool → Binding → Text → VaultDatabase → Result (Text × VaultDatabase)
unfolding require_active_transaction validate_token internal_connection
begin_operation operation_id is_fresh b now db = do
  require_active_transaction db
  check_given operation_id is_fresh db
  raise_if
      (any (has_id operation_id) db.tables.operations
        || any (has_destination b.destination_identity) db.tables.operations)
      (vault_state_failure "OPERATION_REJECTED")
  ok (
    operation_id,
    record db {
      tables = record db.tables {
        operations = started_row operation_id b now ∷ db.tables.operations;
      };
    },
  )

abbrev pub is_started : OperationState → Bool
is_started started = true
is_started completed = false

-- `WHERE operation_id = ? AND state = 'STARTED'`
abbrev pub is_open : Text → Operation → Bool
is_open operation_id row = has_id operation_id row && is_started row.state

abbrev pub coalesce : Option Text → Option Text → Option Text
coalesce none old = old
coalesce (some new) old = some new

abbrev pub completed_row : Option Text → Option Text → Text → Operation → Operation
completed_row output_fingerprint result_json now row = record row {
  state = completed;
  completed_at = some now;
  output_fingerprint = coalesce output_fingerprint row.output_fingerprint;
  result_json = coalesce result_json row.result_json;
}

-- the UPDATE; the key is unique, so that it changes one row at most
unfoldable pub complete_rows : Text → (Operation → Operation) → List Operation → List Operation
complete_rows operation_id finished [] = []
complete_rows operation_id finished (row ∷ rows) =
    (if is_open operation_id row then finished row else row)
    ∷ complete_rows operation_id finished rows

unfoldable pub complete_operation :
    Text → Option Text → Option Text → Text → VaultDatabase → Result (Unit {0} × VaultDatabase)
unfolding require_active_transaction complete_rows
complete_operation operation_id output_fingerprint result_json now db = do
  require_active_transaction db
  raise_if (not (any (is_open operation_id) db.tables.operations))
      (vault_state_failure "OPERATION_NOT_STARTED")
  ok (
    tt,
    record db {
      tables = record db.tables {
        operations =
            complete_rows operation_id (completed_row output_fingerprint result_json now)
              db.tables.operations;
      };
    },
  )

abbrev pub of_operation : Text → Publication → Bool
of_operation operation_id row = text_eq row.operation_id operation_id

-- the publication rows go first, since they refer to the operation
unfoldable pub abandon_operation : Text → VaultDatabase → Result (Unit {0} × VaultDatabase)
unfolding require_active_transaction
abandon_operation operation_id db = do
  require_active_transaction db
  raise_if (not (any (is_open operation_id) db.tables.operations))
      (vault_state_failure "OPERATION_NOT_STARTED")
  ok (
    tt,
    record db {
      tables = record db.tables {
        publication = keep (λ row. not (of_operation operation_id row)) db.tables.publication;
        operations = keep (λ row. not (is_open operation_id row)) db.tables.operations;
      };
    },
  )

unfoldable pub operation_record : VaultDatabase → Text → Result (Option Operation)
unfolding internal_connection
operation_record db operation_id = do
  tables ← internal_connection db
  ok (find (has_id operation_id) tables.operations)

abbrev pub record_of : VaultDatabase → Option Operation → Result (Option Operation)
record_of db none = ok none
record_of db (some row) = operation_record db row.operation_id

unfoldable pub operation_for_destination : VaultDatabase → Text → Result (Option Operation)
unfolding internal_connection operation_record
operation_for_destination db destination_identity = do
  tables ← internal_connection db
  record_of db (find (has_destination (some destination_identity)) tables.operations)

-- the PRIMARY KEY and the foreign key of `publication`
abbrev pub same_phase : Text → Text → Publication → Bool
same_phase operation_id phase row = of_operation operation_id row && text_eq row.phase phase

unfoldable pub record_publication :
    Text → Text → Option Text → Option Text → VaultDatabase → Result (Unit {0} × VaultDatabase)
unfolding require_active_transaction validate_token
record_publication operation_id phase output_fingerprint vault_fingerprint db = do
  require_active_transaction db
  validate_token phase
  raise_if
      (any (same_phase operation_id phase) db.tables.publication
        || not (any (has_id operation_id) db.tables.operations))
      (vault_state_failure "PUBLICATION_REJECTED")
  ok (
    tt,
    record db {
      tables = record db.tables {
        publication =
            record {
              operation_id = operation_id;
              phase = phase;
              output_fingerprint = output_fingerprint;
              vault_fingerprint = vault_fingerprint;
            }
            ∷ db.tables.publication;
      };
    },
  )
