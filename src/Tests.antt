-- ===== src/Tests.antt =====
-- Runs on concrete inputs, and each theorem at one.
mod Emission
mod Machine
mod Fixtures
mod Blocks
mod Commitments
mod Leaders
mod Pending
mod Shards
mod Chains
mod Joins
mod Wire
mod Contracts
