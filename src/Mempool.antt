-- ===== src/Mempool.antt =====
-- Pending transactions, internal/mempool/mempool.go.
pub mod Pool
pub mod Batch
pub mod Runs
