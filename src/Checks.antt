-- ===== src/Checks.antt =====
-- Tests by evaluation, and each theorem at a concrete input.
mod TemporalChecks
mod VaultChecks
mod AuthorityChecks
mod StructureChecks
mod AllocationChecks
mod MemoChecks
mod TextChecks
mod TextAllocationChecks
mod NumericChecks
mod EngineChecks
