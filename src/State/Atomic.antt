-- ===== src/State/Atomic.antt =====
-- `ApplyBlock` and the rollback (internal/state/state.go).
mod Kinds
mod Restore
pub mod Block
