-- ===== src/Engine.antt =====
-- engine/: the observations of pass 1 and the finalization of numeric key domains from them.
pub mod SqlIntegers
pub mod Spool
pub mod Batches
pub mod CastOrder
pub mod NumericPass
pub mod NumericFinalization
pub mod Occupied
pub mod Feasible
pub mod Selection
pub mod Mapped
pub mod Finalized
pub mod Refusals
