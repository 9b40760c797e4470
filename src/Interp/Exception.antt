-- ===== src/Interp/Exception.antt =====
-- crates/interp/src/exception.rs: exception entry to EL1, the return, and the MSR-immediate
-- writes of PSTATE.
pub mod Return
use v.Base.{ℕ, ◌+◌, ◌-◌, ◌*◌, ◌%◌, ◌^◌, ◌<<<◌, bit_and, bit_or, u8, u32, u64, wrapping_add}
use v.Base.{bit_of}
use v.Base.{Bool, true, false, ◌&&◌, Option, none, some, ◌==◌, ltb, if◌then◌else◌, update}
use v.Cpu.State.{CpuState, SysRegs, Abort, pstate, set_pstate, set_el_spsel}
use v.Decoder.Branch.{sysreg_key}

abbrev pub ec_svc : ℕ
ec_svc = 0x15

abbrev pub ec_unknown : ℕ
ec_unknown = 0x00

abbrev pub ec_brk : ℕ
ec_brk = 0x3c

abbrev pub ec_inst_abort_lower : ℕ
ec_inst_abort_lower = 0x20

abbrev pub ec_inst_abort_same : ℕ
ec_inst_abort_same = 0x21

abbrev pub ec_data_abort_lower : ℕ
ec_data_abort_lower = 0x24

abbrev pub ec_data_abort_same : ℕ
ec_data_abort_same = 0x25

abbrev pub key_vbar_el1 : ℕ
unfolding sysreg_key
key_vbar_el1 = sysreg_key 3 0 12 0 0

abbrev pub key_elr_el1 : ℕ
unfolding sysreg_key
key_elr_el1 = sysreg_key 3 0 4 0 1

abbrev pub key_spsr_el1 : ℕ
unfolding sysreg_key
key_spsr_el1 = sysreg_key 3 0 4 0 0

abbrev pub key_esr_el1 : ℕ
unfolding sysreg_key
key_esr_el1 = sysreg_key 3 0 5 2 0

abbrev pub key_far_el1 : ℕ
unfolding sysreg_key
key_far_el1 = sysreg_key 3 0 6 0 0

abbrev pub vec_sync : ℕ
vec_sync = 0x000

abbrev pub vec_irq : ℕ
vec_irq = 0x080

-- `unwrap_or(0)`
abbrev pub unwrap_or_zero : Option ℕ → ℕ
unwrap_or_zero none = 0
unwrap_or_zero (some w) = w

-- `sysregs.get(&key).copied().unwrap_or(0)`
abbrev pub get_sysreg : SysRegs → ℕ → ℕ
get_sysreg regs key = unwrap_or_zero (regs key)

-- `sysregs.insert(key, w)`
abbrev pub insert_sysreg : CpuState → ℕ → ℕ → CpuState
insert_sysreg cpu key w = record cpu { sysregs = update cpu.sysregs key (some w) }

unfoldable pub enter_el1 : CpuState → ℕ → ℕ → CpuState × ℕ
enter_el1 cpu return_addr vec_type =
    let group = if ltb cpu.el 1 then 0x400 else if cpu.spsel then 0x200 else 0x000 in
    let vbar = get_sysreg cpu.sysregs key_vbar_el1 in
    let spsr = pstate cpu in
    let saved = insert_sysreg (insert_sysreg cpu key_elr_el1 return_addr) key_spsr_el1 spsr in
    let switched = set_el_spsel saved 1 true in
    (record switched { daif = 0b1111 }, wrapping_add vbar (group + vec_type))

unfoldable pub take_exception : CpuState → ℕ → ℕ → ℕ → CpuState × ℕ
take_exception cpu ec iss return_addr =
    let (entered, pc) = enter_el1 cpu return_addr vec_sync in
    (insert_sysreg entered key_esr_el1 (bit_or (bit_or (ec <<< 26) (1 <<< 25)) iss), pc)

unfoldable pub take_irq : CpuState → CpuState × ℕ
take_irq cpu = enter_el1 cpu cpu.pc vec_irq

unfoldable pub svc : CpuState → ℕ → ℕ → CpuState × Option ℕ
svc cpu imm16 pc =
    let (cpu', target) = take_exception cpu ec_svc imm16 (wrapping_add pc 4) in (cpu', some target)

unfoldable pub undefined : CpuState → ℕ → CpuState × ℕ
undefined cpu pc = take_exception cpu ec_unknown 0 pc

unfoldable pub brk : CpuState → ℕ → ℕ → CpuState × Option ℕ
brk cpu imm16 pc = let (cpu', target) = take_exception cpu ec_brk imm16 pc in (cpu', some target)

unfoldable pub inst_abort : CpuState → ℕ → ℕ → CpuState × ℕ
inst_abort cpu fault_pc fsc =
    let ec = if cpu.el == 0 then ec_inst_abort_lower else ec_inst_abort_same in
    take_exception (insert_sysreg cpu key_far_el1 fault_pc) ec (bit_and fsc 0x3f) fault_pc

unfoldable pub data_abort : CpuState → ℕ → Abort → CpuState × ℕ
data_abort cpu fault_pc abort =
    let ec = if cpu.el == 0 then ec_data_abort_lower else ec_data_abort_same in
    let iss = bit_or (bit_of abort.write <<< 6) (bit_and abort.fsc 0x3f) in
    take_exception (insert_sysreg cpu key_far_el1 abort.far) ec iss fault_pc

unfoldable pub eret : CpuState → CpuState × Option ℕ
eret cpu =
    let elr = get_sysreg cpu.sysregs key_elr_el1 in
    let spsr = get_sysreg cpu.sysregs key_spsr_el1 in (set_pstate cpu spsr, some elr)

-- `daif &= !crm` on u8
unfoldable pub msr_imm : CpuState → ℕ → ℕ → ℕ → CpuState × Option ℕ
msr_imm cpu op1 op2 crm =
    if op1 == 0 && op2 == 5
    then (set_el_spsel cpu cpu.el (bit_and crm 1 == 1), none)
    else if op1 == 3 && op2 == 6
    then (record cpu { daif = bit_or cpu.daif crm }, none)
    else if op1 == 3 && op2 == 7
    then (record cpu { daif = bit_and cpu.daif (255 - crm) }, none)
    else (cpu, none)
