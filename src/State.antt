-- ===== src/State.antt =====
-- The account ledger, internal/state/state.go.
pub mod Data
pub mod Ledger
pub mod Contract
pub mod Money
pub mod Confine
pub mod Intact
pub mod Execution
pub mod Effects
pub mod Payment
pub mod Registry
pub mod Proofs
pub mod Tracked
pub mod Apply
pub mod Atomic
pub mod Solvent
pub mod Admission
pub mod Access
pub mod Copies
