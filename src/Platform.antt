-- ===== src/Platform.antt =====
-- crates/platform: the devices of the `virt` machine.
pub mod Gic
pub mod Uart
