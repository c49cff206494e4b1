-- ===== src/Shl.antt =====
-- The contract language of internal/shl: its syntax trees and the compiler to the machine's bytecode.
pub mod Ast
pub mod Gen
pub mod Code
pub mod Compile
pub mod Grows
pub mod Sound
pub mod Program
pub mod Estimate
pub mod Lexer
pub mod Tokens
