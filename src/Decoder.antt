-- ===== src/Decoder.antt =====
-- crates/decoder: instruction words to instructions.
pub mod Insn
pub mod Fields
pub mod Bitmask
pub mod DpImm
pub mod DpReg
pub mod Ldst
pub mod Fp
pub mod Neon
pub mod Decode
pub mod Registers
pub mod Branch
pub mod Block
pub mod Operands
