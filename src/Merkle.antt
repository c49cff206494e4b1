-- ===== src/Merkle.antt =====
-- Merkle trees, internal/merkle/merkle.go.
pub mod Tree
pub mod Inclusion
