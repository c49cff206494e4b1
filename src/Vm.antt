-- ===== src/Vm.antt =====
-- The contract virtual machine, internal/vm/vm.go: opcodes, the stack, one step, the loop.
pub mod Opcodes
pub mod Stack
pub mod Frame
pub mod Step
pub mod Run
pub mod Invariant
pub mod Bounds
pub mod Arith
pub mod World
pub mod Jumps
