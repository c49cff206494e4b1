-- ===== src/Forkchoice.antt =====
-- The rule by which nodes pick a chain, internal/forkchoice/forkchoice.go.
pub mod Tree
pub mod Order
pub mod Best
