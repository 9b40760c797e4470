-- ===== src/Interp.antt =====
-- crates/interp: the interpreter.
pub mod Memory
pub mod Mmu
pub mod Alu
pub mod Exception
pub mod Integer
pub mod MemAccess
pub mod Ldst
pub mod Simd
pub mod Psci
pub mod Execute
pub mod Run
pub mod Timer
pub mod System
