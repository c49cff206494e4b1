-- ===== src/Consensus.antt =====
-- Who may produce a block, internal/consensus/consensus.go.
pub mod Election
pub mod Authorize
pub mod Member
