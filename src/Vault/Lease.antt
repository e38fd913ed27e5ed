-- ===== src/Vault/Lease.antt =====
-- vault/store.py: system transactions, the single writer lease and the closing of a connection. A
-- failing control statement is an argument; the statements inside a unit are taken to run.
use dbf_anonymizer.Prelude.{
  ℕ, ◌+◌, String, Bool, true, false, Option, none, some, if◌then◌else◌, Text, text_eq,
}
use dbf_anonymizer.Errors.{
  Failure, vault_error, vault_unavailable, vault_writer_conflict, value_error, runtime_error,
  Result, ok, err, ◌>>=◌, ◌>>◌, raise_if,
}
use dbf_anonymizer.Vault.{
  Tables, VaultDatabase, Faults, validate_token, vault_state_failure, internal_connection,
  require_trusted_connection, finish,
}

-- the refusals of `_system_transaction`
unfoldable pub system_transaction : VaultDatabase → Result (Unit {0})
unfolding require_trusted_connection
system_transaction db = do require_trusted_connection db; raise_if db.active value_error

-- a body that only runs SQL
abbrev pub on_tables :
    {A : Type 0} → (Tables → Result (A × Tables)) → VaultDatabase → Result (A × VaultDatabase)
on_tables body db = do written ← body db.tables; ok (written.0, record db { tables = written.1 })

abbrev pub system_begin :
    {A : Type 0}
    → Faults
    → (Tables → Result (A × Tables))
    → VaultDatabase
    → Result (Unit {0})
    → Result A × VaultDatabase
system_begin faults body db (err failure) = (err failure, db)
system_begin faults body db (ok _) =
    if faults.begin_fails
    then (err (vault_error vault_unavailable "vault" "TRANSACTION_BEGIN_FAILED"), db)
    else finish faults db (on_tables body db)

-- `with self._system_transaction(): body`
unfoldable pub in_system_transaction :
    {A : Type 0}
    → Faults
    → (Tables → Result (A × Tables))
    → VaultDatabase
    → Result A × VaultDatabase
unfolding system_transaction finish
in_system_transaction faults body db = system_begin faults body db (system_transaction db)

abbrev pub conflict : String → Failure
conflict detail_code = vault_error vault_writer_conflict "vault" detail_code

-- the conditional UPDATE, and the tick that is read back
abbrev pub take_lease : Text → Option Text → Tables → Result (ℕ × Tables)
take_lease owner_token (some holder) tables = err (conflict "WRITER_LEASE_HELD")
take_lease owner_token none tables = ok (
  tables.acquire_tick + 1,
  record tables { owner_token = some owner_token; acquire_tick = tables.acquire_tick + 1 },
)

abbrev pub acquire : Text → Tables → Result (ℕ × Tables)
acquire owner_token tables = take_lease owner_token tables.owner_token tables

-- the guards before the unit
unfoldable pub may_acquire : Text → VaultDatabase → Result (Unit {0})
unfolding validate_token
may_acquire owner_token db = do
  validate_token owner_token
  raise_if db.read_only (conflict "READ_ONLY_CONNECTION")
  raise_if db.closed runtime_error
  raise_if db.poisoned (vault_state_failure "CONNECTION_POISONED")
  raise_if db.active value_error

-- after the unit the lease is bound to the instance
abbrev pub bound : Text → Result ℕ × VaultDatabase → Result ℕ × VaultDatabase
bound owner_token (err failure, db) = (err failure, db)
bound owner_token (ok tick, db) = (ok tick, record db { writer_token = some owner_token })

abbrev pub acquired : Faults → Text → VaultDatabase → Result (Unit {0}) → Result ℕ × VaultDatabase
acquired faults owner_token db (err failure) = (err failure, db)
acquired faults owner_token db (ok _) =
    bound owner_token (in_system_transaction faults (acquire owner_token) db)

unfoldable pub acquire_writer_lease : Faults → Text → VaultDatabase → Result ℕ × VaultDatabase
unfolding may_acquire in_system_transaction
acquire_writer_lease faults owner_token db =
    acquired faults owner_token db (may_acquire owner_token db)

abbrev pub is_held_by : Text → Option Text → Bool
is_held_by owner_token none = false
is_held_by owner_token (some holder) = text_eq holder owner_token

abbrev pub release : Text → Tables → Result (Unit {0} × Tables)
release owner_token tables =
    if is_held_by owner_token tables.owner_token
    then ok (tt, record tables { owner_token = none })
    else err (conflict "NOT_LEASE_HOLDER")

unfoldable pub may_release : Text → VaultDatabase → Result (Unit {0})
unfolding validate_token
may_release owner_token db = do
  validate_token owner_token
  raise_if db.closed runtime_error
  raise_if db.poisoned (vault_state_failure "CONNECTION_POISONED")

abbrev pub unbound : Text → Result (Unit {0}) × VaultDatabase → Result (Unit {0}) × VaultDatabase
unbound owner_token (err failure, db) = (err failure, db)
unbound owner_token (ok _, db) =
    if is_held_by owner_token db.writer_token
    then (ok tt, record db { writer_token = none })
    else (ok tt, db)

abbrev pub released :
    Faults → Text → VaultDatabase → Result (Unit {0}) → Result (Unit {0}) × VaultDatabase
released faults owner_token db (err failure) = (err failure, db)
released faults owner_token db (ok _) =
    unbound owner_token (in_system_transaction faults (release owner_token) db)

unfoldable pub release_writer_lease :
    Faults → Text → VaultDatabase → Result (Unit {0}) × VaultDatabase
unfolding may_release in_system_transaction
release_writer_lease faults owner_token db =
    released faults owner_token db (may_release owner_token db)

unfoldable pub stale_writer_lease : VaultDatabase → Result (Option Text)
unfolding internal_connection
stale_writer_lease db = do tables ← internal_connection db; ok tables.owner_token

unfoldable pub writer_acquire_tick : VaultDatabase → Result ℕ
unfolding internal_connection
writer_acquire_tick db = do tables ← internal_connection db; ok tables.acquire_tick

-- what the checkpoint of a closing connection comes to
pub data Checkpoint : Type 0 where
  truncated incomplete raised : Checkpoint

abbrev pub close_failure : String → Failure
close_failure detail_code = vault_error vault_unavailable "vault" detail_code

-- `_checkpoint_wal`, as the failure that `_close` keeps
abbrev pub checkpoint_failure : Checkpoint → Option Failure
checkpoint_failure truncated = none
checkpoint_failure incomplete = some (close_failure "CLOSE_CHECKPOINT_INCOMPLETE")
checkpoint_failure raised = some (close_failure "CLOSE_CHECKPOINT_FAILED")

-- the failure of the connection's own close does not replace an earlier one
abbrev pub then_close : Bool → Option Failure → Option Failure
then_close close_fails (some failure) = some failure
then_close close_fails none = if close_fails then some (close_failure "CLOSE_FAILED") else none

abbrev pub reported : Bool → Option Failure → VaultDatabase → Result (Unit {0}) × VaultDatabase
reported record_failure_only none db = (ok tt, record db { closed = true; cleanup_failure = none })
reported record_failure_only (some failure) db = (
  if record_failure_only then ok tt else err failure,
  record db { closed = true; cleanup_failure = some failure },
)

-- `_close`
unfoldable pub close : Checkpoint → Bool → Bool → VaultDatabase → Result (Unit {0}) × VaultDatabase
close checkpoint close_fails record_failure_only db =
    if db.closed
    then (ok tt, db)
    else if db.read_only
    then reported record_failure_only (then_close close_fails none) db
    else reported record_failure_only (then_close close_fails (checkpoint_failure checkpoint)) db
