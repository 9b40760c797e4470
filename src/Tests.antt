-- ===== src/Tests.antt =====
-- The theorems at concrete inputs, component by component.
mod Cpu
mod Mmu
mod Interp
mod Gic
mod Devices
mod Access
