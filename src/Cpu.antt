-- ===== src/Cpu.antt =====
-- crates/cpu: the architectural state of one core, its flags and its translation cache.
pub mod Flags
pub mod Tlb
pub mod State
