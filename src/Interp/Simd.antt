-- ===== src/Interp/Simd.antt =====
-- crates/interp/src/simd/: the executors of the vector instructions that move elements.
pub mod Struct
pub mod Lanes
pub mod Permute
pub mod Straight
