-- ===== src/State/Solvent.antt =====
-- No transaction creates money (internal/state/state.go).
mod Wealth
mod Kinds
pub mod Loop
pub mod Block
