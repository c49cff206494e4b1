-- ===== src/Types.antt =====
-- Transactions, headers, blocks and logs, internal/types (tx.go, block.go, logs.go).
pub mod Data
pub mod Decode
pub mod Encode
pub mod Sign
pub mod Roots
pub mod RoundTrip
pub mod LogRoundTrip
