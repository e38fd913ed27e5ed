-- ===== src/Lib.antt =====
-- DBF_Anonymizer replaces the values of DBF tables by reversible pseudonyms. This library models the
-- part of it that decides which pseudonym a value gets and what the vault keeps for the way back, and
-- proves that the two directions fit together. Paths are from the repository's root.
--
-- The program's parts and their models:
--   - Prelude: numbers, Python's int (ℤ over the native numbers), strings as code points, sets of ints
--     as ascending lists. Errors: raised exceptions as values. Values: the logical values of a field.
--   - src/dbf_anonymizer/transforms/text.py, the alphabet and the token space of text pseudonyms:
--     Text, with Text/Space (the size of the space), Text/Digits and Text/Tokens (tokens and their
--     indices), Text/Alphabet (characters of one byte under every codec). Functions keep their names.
--   - src/dbf_anonymizer/transforms/numeric_keys.py, declared numeric key domains: NumericKeys, with
--     NumericKeys/Gaps and NumericKeys/Free (the walk to the j-th free token), NumericKeys/Bijection
--     and NumericKeys/Assignment (the feasibility test), and CanonicalText (the stored text of an
--     integer, with CanonicalText/Digits and CanonicalText/RoundTrip).
--   - src/dbf_anonymizer/transforms/temporal.py, the shift of dates: Temporal, with Temporal/Shift,
--     Temporal/Count and Temporal/Offsets. A date is its ordinal, a datetime its ordinal and its time
--     of day.
--   - src/dbf_anonymizer/transforms/memo.py, the masks of memo payloads: Memo.
--   - src/dbf_anonymizer/vault/schema.py, the guards of vault/store.py, and vault/transactions.py:
--     Vault. Tables are lists of rows, newest first; a stored value carries its storage class, since
--     SQLite lets a hostile row hold any (the rows are Schema). VaultTransaction is in_transaction:
--     __enter__ is begin and enter, __exit__ is finish. Vault/Atomicity has what a unit leaves behind.
--   - src/dbf_anonymizer/vault/store.py, the writer lease and closing: Vault/Lease, with Vault/Acquired;
--     Vault/Authority puts any number of connections over one file, a call of one connection after
--     the other, and Vault/Lasting and SingleWriter say what the lease promises them. The operation
--     journal: Vault/Journal, with its calls in sequence in Journal/Calls, and Journal/Valid and Final.
--     The registration of tables and fields: Vault/Structure, and Structure/Paths for their paths.
--   - src/dbf_anonymizer/vault/mappings.py: Vault/Mappings (domains and text rows),
--     Vault/NumericMappings, Vault/Recovery (memo rows and temporal parameters), with Vault/Inserted
--     and Vault/NumericBijective for what the inserts establish. A UNIQUE index, a primary key or a
--     foreign key is a test before the row is stored.
--   - src/dbf_anonymizer/vault/temporal_allocation.py: TemporalAllocation, a domain that observes
--     values, takes its offset from the vault or draws one and stores it, and shifts and recovers.
--     TemporalAllocation/Observed, Finalized, Reused, RoundTrip and Returns follow that life.
--   - src/dbf_anonymizer/vault/numeric_allocation.py: NumericAllocation, the choice of one pseudonym
--     among the free tokens; NumericAllocation/Sound, Complete and Orders. allocate_all is the
--     sequence of the choices in the order in which originals are asked for. NumericAllocation/Rows,
--     Finalization and Persisted are the service over the persisted rows, and ReadBack and Recovery
--     follow a pseudonym back to its original.
--   - src/dbf_anonymizer/vault/text_allocation.py: TextAllocation, the instance of the global text
--     domain and the choice of a pseudonym under its planned slot, with TextAllocation/Walk, Classes,
--     Selection and Slots; TextAllocation/Lifecycle, observation and finalization, with Loaded and
--     Finalized.
--   - src/dbf_anonymizer/engine/state.py: Engine/Spool, the observations of pass 1 with their bounded
--     batches, and Engine/Batches, the spool without batches that they stand for.
--   - src/dbf_anonymizer/engine/pass1.py: Engine/NumericPass and Engine/NumericFinalization, the
--     allocation of numeric keys that a run uses. It follows its own streaming rules beside those of
--     numeric_allocation.py: Engine/Occupied, Feasible and Selection compare the two, Mapped and
--     Finalized say what a finalization leaves in the vault, and Refusals where it gives up. Its
--     queries compute with SQLite's 64-bit integers: Engine/SqlIntegers has their bounds, the
--     OverflowError of a parameter outside them, CAST, which stops at them, and the order of the casts
--     (equal casts in the order of the rows, which SQL leaves open); Engine/CastOrder says when they
--     make no difference.
--   - src/dbf_anonymizer/vault/memo_allocation.py: MemoAllocation, which stores a payload and only
--     then returns its mask; MemoAllocation/Masked, Stored and Recovered.
--   - Checks: runs at small inputs, and each theorem applied to one.
--
-- State is passed explicitly: an operation takes the instance and the database and returns what it
-- returned or raised with both. Loops over lists and ranges are structural recursion. Fuel is used in
-- CanonicalText.decimal alone, where as many rounds as the number itself are given; a number has fewer
-- digits than that, and the round trip does not hold with fewer rounds than needed. The loops of
-- NumericAllocation have the bounds of the code: 64 probes, and a walk over at most two more tokens
-- than there are originals.
--
-- Parameters stand for what the repository does not define or what is not determined: the codec
-- registry, UTF-8 (which must decode what it encodes), SHA-256, the random numbers (below the bound
-- that was asked for, where a theorem needs it), and which of SQLite's BEGIN, COMMIT and ROLLBACK
-- fail. A COMMIT that failed is taken to have made nothing durable.
--
-- Not modelled: the maximum flow that plans text pseudonyms (_ResidualFlow of
-- vault/text_allocation.py, and engine/text_residual.py), the scan of pass 1, pass 2 and the
-- publication of engine/, policies, relationships, planning, preflight, verification, recovery and
-- bundles as whole runs, opening and checking a dictionary file, the command line, and the
-- serialization of public models. Much of that is input and output or calls of the dbfbridge
-- library.
-- The order in which a query returns its rows is modelled for the observations of pass 1 and for
-- text and numeric rows, where a reader that stops at a refused row keeps what it read before;
-- other readers add the rows to sets. The loop of pass 1 over a query that its own deletions change
-- is taken over the rows of the beginning.
pub mod Prelude
pub mod Errors
pub mod Values
pub mod Text
pub mod NumericKeys
pub mod CanonicalText
pub mod Temporal
pub mod Memo
pub mod Schema
pub mod Vault
pub mod TemporalAllocation
pub mod NumericAllocation
pub mod MemoAllocation
pub mod TextAllocation
pub mod Engine
pub mod Checks
