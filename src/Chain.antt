-- ===== src/Chain.antt =====
-- The chain of internal/chain: chain.go and reorg.go.
pub mod Data
pub mod Persist
pub mod Query
pub mod Live
pub mod Walk
pub mod Finality
pub mod Extend
pub mod Reorg
pub mod Sync
pub mod Origin
pub mod Linked
pub mod Floor
pub mod Grow
pub mod Follow
pub mod Accept
pub mod External
pub mod Joined
pub mod Produced
pub mod Blocks
pub mod Forward
pub mod Authentic
pub mod Heights
pub mod Forgery
pub mod Made
