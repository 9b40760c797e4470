-- ===== src/Interp/System.antt =====
-- crates/interp/src/system.rs: MRS and MSR.
pub mod Laws
use v.Base.{ℕ, ◌+◌, ◌*◌, ◌/◌, ◌%◌, ◌^◌, ◌<<<◌, ◌>>>◌, bit_and, u8, Bool, true, false, Option}
use v.Base.{none, some}
use v.Base.{◌==◌, if◌then◌else◌, ◌>>=◌}
use v.Cpu.Flags.{to_nzcv, from_nzcv}
use v.Cpu.State.{CpuState, read_gpr, write_gpr, read_sp_el, write_sp_el, flush_tlb}
use v.Decoder.Branch.{sysreg_key}
use v.Interp.Exception.{get_sysreg, insert_sysreg}
use v.Interp.Timer

abbrev pub key_sp_el0 : ℕ
unfolding sysreg_key
key_sp_el0 = sysreg_key 3 0 4 1 0

abbrev pub key_sp_el1 : ℕ
unfolding sysreg_key
key_sp_el1 = sysreg_key 3 4 4 1 0

abbrev pub key_daif : ℕ
unfolding sysreg_key
key_daif = sysreg_key 3 3 4 2 1

abbrev pub key_nzcv : ℕ
unfolding sysreg_key
key_nzcv = sysreg_key 3 3 4 2 0

abbrev pub key_fpcr : ℕ
unfolding sysreg_key
key_fpcr = sysreg_key 3 3 4 4 0

abbrev pub key_fpsr : ℕ
unfolding sysreg_key
key_fpsr = sysreg_key 3 3 4 4 1

abbrev pub key_sctlr_el1 : ℕ
unfolding sysreg_key
key_sctlr_el1 = sysreg_key 3 0 1 0 0

abbrev pub key_tcr_el1 : ℕ
unfolding sysreg_key
key_tcr_el1 = sysreg_key 3 0 2 0 2

abbrev pub key_ttbr0_el1 : ℕ
unfolding sysreg_key
key_ttbr0_el1 = sysreg_key 3 0 2 0 0

abbrev pub key_ttbr1_el1 : ℕ
unfolding sysreg_key
key_ttbr1_el1 = sysreg_key 3 0 2 0 1

unfoldable pub read_xlate_reg : CpuState → ℕ → Option ℕ
read_xlate_reg cpu key =
    if key == key_sctlr_el1
    then some cpu.sctlr_el1
    else if key == key_tcr_el1
    then some cpu.tcr_el1
    else if key == key_ttbr0_el1
    then some cpu.ttbr0_el1
    else if key == key_ttbr1_el1
    then some cpu.ttbr1_el1
    else none

-- `*field = val`, or no field.
unfoldable pub assign_field : CpuState → ℕ → ℕ → Option CpuState
assign_field cpu key val =
    if key == key_sctlr_el1
    then some (record cpu { sctlr_el1 = val })
    else if key == key_tcr_el1
    then some (record cpu { tcr_el1 = val })
    else if key == key_ttbr0_el1
    then some (record cpu { ttbr0_el1 = val })
    else if key == key_ttbr1_el1
    then some (record cpu { ttbr1_el1 = val })
    else none

-- `none` is the `false` of the source.
unfoldable pub write_xlate_reg : CpuState → ℕ → ℕ → Option CpuState
write_xlate_reg cpu key val = do written ← assign_field cpu key val; some (flush_tlb written)

abbrev pub sp_bank : ℕ → Option ℕ
sp_bank key = if key == key_sp_el0 then some 0 else if key == key_sp_el1 then some 1 else none

-- `unwrap_or_else`
abbrev pub or_else : Option ℕ → ℕ → ℕ
or_else none b = b
or_else (some a) b = a

-- The value of an MRS.
unfoldable pub value_of : CpuState → ℕ → ℕ
value_of cpu key =
    let banked : ℕ = elim (sp_bank key) [
      | some idx ↦ read_sp_el cpu idx
      | none ↦ or_else (Timer.read cpu key) (get_sysreg cpu.sysregs key)
    ] in
    if key == key_fpcr
    then cpu.fpcr
    else if key == key_fpsr
    then cpu.fpsr
    else if key == key_daif
    then cpu.daif <<< 6
    else if key == key_nzcv
    then to_nzcv cpu.flags
    else or_else (read_xlate_reg cpu key) banked

abbrev pub or_state : Option CpuState → CpuState → CpuState
or_state none b = b
or_state (some a) b = a

-- The state after an MSR.
unfoldable pub assign : CpuState → ℕ → ℕ → CpuState
assign cpu key val =
    let timed = Timer.write cpu key val in
    let banked : CpuState = elim (sp_bank key) [
      | some idx ↦ write_sp_el cpu idx val
      | none ↦ if timed.1 then timed.0 else insert_sysreg cpu key val
    ] in
    if key == key_fpcr
    then record cpu { fpcr = val }
    else if key == key_fpsr
    then record cpu { fpsr = val }
    else if key == key_daif
    then record cpu { daif = u8 (bit_and (val >>> 6) 0xf) }
    else if key == key_nzcv
    then record cpu { flags = from_nzcv val }
    else or_state (write_xlate_reg cpu key val) banked

unfoldable pub exec : CpuState → Bool → ℕ → ℕ → Option (CpuState × Option ℕ)
exec cpu true key rt = do cpu' ← write_gpr cpu rt false (value_of cpu key); some (cpu', none)
exec cpu false key rt = do val ← read_gpr cpu rt false; some (assign cpu key val, none)
