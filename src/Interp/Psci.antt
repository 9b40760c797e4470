-- ===== src/Interp/Psci.antt =====
-- crates/interp/src/psci.rs: the firmware calls behind HVC and SMC.
pub mod Calls
use v.Base.{ℕ, ◌-◌, ◌^◌, ◌<◌, ◌≡◌, inl, inr, refl, true, ◌||◌}
use v.Base.{bit_and, u32, not32, Option, some, ◌==◌}
use v.Base.{if◌then◌else◌, ◌>>=◌, get_elem?, set?, get_elem?-total, set?-total, arith}
use v.Base.{◌∙◌, Bool-cases}
use v.Cpu.State.{CpuState}
use v.Cpu.State.Gpr.{HasRegs}

abbrev pub psci_version : ℕ
psci_version = 0x8400_0000

abbrev pub cpu_affinity_info : ℕ
cpu_affinity_info = 0x8400_0004

abbrev pub migrate_info_type : ℕ
migrate_info_type = 0x8400_0006

abbrev pub system_off : ℕ
system_off = 0x8400_0008

abbrev pub system_reset : ℕ
system_reset = 0x8400_0009

-- The 64-bit pattern of -1.
abbrev pub not_supported : ℕ
not_supported = 2 ^ 64 - 1

abbrev pub version_1_0 : ℕ
version_1_0 = 2 ^ 16

abbrev pub migrate_not_required : ℕ
migrate_not_required = 2

-- `fid`
abbrev pub function_of : ℕ → ℕ
function_of x0 = bit_and (u32 x0) (not32 (2 ^ 30))

-- The `match fid`.
unfoldable pub answer : ℕ → ℕ
answer fid =
    if fid == psci_version
    then version_1_0
    else if fid == system_off || fid == system_reset
    then 0
    else if fid == cpu_affinity_info
    then 0
    else if fid == migrate_info_type
    then migrate_not_required
    else not_supported

unfoldable pub call : CpuState → Option CpuState
call cpu = do
  x0 ← get_elem? cpu.x 0
  let fid = function_of x0
  let halts = fid == system_off || fid == system_reset
  let halted = if halts then record cpu { powered_off = true } else cpu
  x' ← set? halted.x 0 (answer fid)
  some (record halted { x = x' })
