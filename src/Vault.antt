-- ===== src/Vault.antt =====
-- The connection guards of vault/store.py and vault/transactions.py: the state of one VaultDatabase
-- and its transaction unit. What SQLite itself refuses (BEGIN, COMMIT, ROLLBACK) is an argument.
pub mod Connection
pub mod Mappings
pub mod Inserted
pub mod NumericMappings
pub mod NumericBijective
pub mod Recovery
pub mod Atomicity
pub mod Lease
pub mod Acquired
pub mod Authority
pub mod Lasting
pub mod SingleWriter
pub mod Journal
pub mod Structure
pub use dbf_anonymizer.Schema.{
  Cell, null_cell, real_cell, integer_cell, text_cell, blob_cell, MappingDomain, TextMapping,
  NumericKeyMapping, MemoRecovery, TemporalParameter, OperationState, started, completed, Operation,
  Publication, Table, Field, Tables,
}
use dbf_anonymizer.Prelude.{
  ℕ, String, Bool, true, false, not, ◌&&◌, ◌||◌, Option, none, some, List, [], ◌∷◌, reverse, ltb,
  leb, ◌==◌, if◌then◌else◌, length, any, ℤ, Text, text_eq, contains,
}
use dbf_anonymizer.Errors.{
  Failure, vault_error, vault_state_invalid, vault_unavailable, vault_writer_conflict, value_error,
  runtime_error, Result, ok, err, ◌>>=◌, ◌>>◌, raise_if,
}

-- `active` is an authorized transaction unit between its `__enter__` and its `__exit__`.
pub record VaultDatabase : Type 0 where
  pub tables : Tables
  pub closed : Bool
  pub poisoned : Bool
  pub read_only : Bool
  pub writer_token : Option Text
  pub active : Bool
  pub cleanup_failure : Option Failure

-- `str.isspace` for one character
abbrev whitespace : Text
whitespace =
    9 ∷ 10 ∷ 11 ∷ 12 ∷ 13 ∷ 28 ∷ 29 ∷ 30 ∷ 31 ∷ 32 ∷ 133 ∷ 160 ∷ 5760 ∷ 8192 ∷ 8193 ∷ 8194 ∷ 8195
    ∷ 8196 ∷ 8197 ∷ 8198 ∷ 8199 ∷ 8200 ∷ 8201 ∷ 8202 ∷ 8232 ∷ 8233 ∷ 8239 ∷ 8287 ∷ 12288 ∷ []

abbrev is_space : ℕ → Bool
is_space c = contains c whitespace

-- `str.lstrip`
lstrip : Text → Text
lstrip [] = []
lstrip (c ∷ cs) = if is_space c then lstrip cs else c ∷ cs

strip : Text → Text
unfolding lstrip
strip s = reverse (lstrip (reverse (lstrip s)))

-- _MAX_TOKEN_LENGTH
abbrev max_token_length : ℕ
max_token_length = 128

unfoldable pub validate_token : Text → Result (Unit {0})
unfolding strip
validate_token value =
    if length value == 0
      || (ltb max_token_length (length value) || not (text_eq (strip value) value))
    then err value_error
    else raise_if (any is_space value) value_error

abbrev pub vault_state_failure : String → Failure
vault_state_failure detail_code = vault_error vault_state_invalid "vault" detail_code

unfoldable pub require_trusted_connection : VaultDatabase → Result (Unit {0})
require_trusted_connection db =
    if db.closed
    then err runtime_error
    else raise_if db.poisoned (vault_state_failure "CONNECTION_POISONED")

-- `_internal_connection`, with what its reads see
unfoldable pub internal_connection : VaultDatabase → Result Tables
unfolding require_trusted_connection
internal_connection db = do require_trusted_connection db; ok db.tables

unfoldable pub require_active_transaction : VaultDatabase → Result (Unit {0})
require_active_transaction db = raise_if (not db.active) value_error

abbrev pub lease_required : Failure
lease_required = vault_error vault_writer_conflict "vault" "WRITER_LEASE_REQUIRED"

abbrev is_owned_by : Option Text → Option Text → Bool
is_owned_by (some owner) (some token) = text_eq owner token
is_owned_by _ _ = false

unfoldable pub verify_writer_ownership : VaultDatabase → Result (Unit {0})
verify_writer_ownership db =
    raise_if (not (is_owned_by db.tables.owner_token db.writer_token)) lease_required

abbrev has_lease : Option Text → Bool
has_lease none = false
has_lease (some _) = true

-- `VaultDatabase.transaction`: the refusals before the unit exists
unfoldable pub transaction : VaultDatabase → Result (Unit {0})
unfolding require_trusted_connection
transaction db = do
  require_trusted_connection db
  raise_if db.read_only (vault_error vault_writer_conflict "vault" "READ_ONLY_CONNECTION")
  raise_if db.active value_error
  raise_if (not (has_lease db.writer_token)) lease_required

-- which of SQLite's control statements fail
pub record Faults : Type 0 where
  pub begin_fails : Bool
  pub commit_fails : Bool
  pub rollback_fails : Bool

abbrev pub no_faults : Faults
no_faults = record { begin_fails = false; commit_fails = false; rollback_fails = false }

-- ROLLBACK brings the tables of BEGIN back; where it fails, the owner is poisoned and what the unit
-- wrote is never committed
abbrev pub rolled_back : Faults → VaultDatabase → VaultDatabase
rolled_back faults db = record db { poisoned = db.poisoned || faults.rollback_fails }

-- what `__exit__` does with the outcome of the body
unfoldable pub finish :
    {A : Type 0} → Faults → VaultDatabase → Result (A × VaultDatabase) → Result A × VaultDatabase
finish faults db (err failure) = (err failure, rolled_back faults db)
finish faults db (ok (value, written)) =
    if faults.commit_fails
    then (
      err (vault_error vault_unavailable "vault" "TRANSACTION_COMMIT_FAILED"),
      record db { poisoned = true },
    )
    else (ok value, record written { active = false })

-- after BEGIN: the authority check, and the body
pub enter :
    {A : Type 0}
    → Faults
    → (VaultDatabase → Result (A × VaultDatabase))
    → VaultDatabase
    → Result (Unit {0})
    → Result A × VaultDatabase
unfolding finish
enter faults body db (err failure) = (err failure, rolled_back faults db)
enter faults body db (ok _) = finish faults db (body (record db { active = true }))

pub begin :
    {A : Type 0}
    → Faults
    → (VaultDatabase → Result (A × VaultDatabase))
    → VaultDatabase
    → Result (Unit {0})
    → Result A × VaultDatabase
unfolding enter verify_writer_ownership
begin faults body db (err failure) = (err failure, db)
begin faults body db (ok _) =
    if faults.begin_fails
    then (err (vault_error vault_unavailable "vault" "TRANSACTION_BEGIN_FAILED"), db)
    else enter faults body db (verify_writer_ownership db)

-- `with database.transaction(): body`
unfoldable pub in_transaction :
    {A : Type 0}
    → Faults
    → (VaultDatabase → Result (A × VaultDatabase))
    → VaultDatabase
    → Result A × VaultDatabase
unfolding begin transaction
in_transaction faults body db = begin faults body db (transaction db)
