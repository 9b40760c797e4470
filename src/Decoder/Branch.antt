-- ===== src/Decoder/Branch.antt =====
-- crates/decoder/src/branch.rs, its classes and system.rs: branches, exceptions, system.
use v.Base.{ℕ, ◌*◌, ◌<<<◌, bit_or, u64, ◌&&◌, ◌||◌}
use v.Base.{◌==◌, ◌!=◌, ltb, if◌then◌else◌}
use v.Decoder.Insn.{Insn}
use v.Decoder.Fields.{sf, field, sfield}

unfoldable pub branch_imm : ℕ → Insn
branch_imm word = Insn.branch_imm (field word 31 1 == 1) (u64 (sfield word 0 26 * 4))

unfoldable pub compare_branch : ℕ → Insn
compare_branch word =
    Insn.compare_branch (sf word) (field word 24 1 == 1) (field word 0 5)
      (u64 (sfield word 5 19 * 4))

unfoldable pub test_branch : ℕ → Insn
test_branch word =
    Insn.test_branch (bit_or (field word 31 1 <<< 5) (field word 19 5)) (field word 24 1 == 1)
      (field word 0 5) (u64 (sfield word 5 14 * 4))

unfoldable pub cond_branch : ℕ → Insn
cond_branch word =
    if field word 4 1 != 0 || field word 24 1 != 0
    then Insn.unsupported word
    else Insn.cond_branch (field word 0 4) (u64 (sfield word 5 19 * 4))

unfoldable pub branch_reg : ℕ → Insn
branch_reg word =
    let opc = field word 21 4 in
    if field word 16 5 != 0b11111 || field word 10 6 != 0 || field word 0 5 != 0
    then Insn.unsupported word
    else if opc == 0b0100 && (field word 5 5 == 0b11111)
    then Insn.eret
    else if ltb 2 opc
    then Insn.unsupported word
    else Insn.branch_reg opc (field word 5 5)

unfoldable pub sysreg_key : ℕ → ℕ → ℕ → ℕ → ℕ → ℕ
sysreg_key op0 op1 crn crm op2 =
    bit_or (bit_or (bit_or (bit_or (op0 <<< 16) (op1 <<< 12)) (crn <<< 8)) (crm <<< 4)) op2

-- The arm of `op0 == 0`: hints, barriers and PSTATE writes.
unfoldable pub hints : ℕ → Insn
hints word =
    let crn = field word 12 4 in
    let crm = field word 8 4 in
    let op2 = field word 5 3 in
    if (field word 21 1 == 1) || field word 0 5 != 31
    then Insn.unsupported word
    else if crn == 2
    then (if crm == 0 && op2 == 2
        then Insn.wfe
        else if crm == 0 && op2 == 3
        then Insn.wfi
        else Insn.nop)
    else if crn == 3
    then Insn.nop
    else if crn == 4
    then Insn.msr_imm (field word 16 3) op2 crm
    else Insn.unsupported word

-- The arm of `op0 == 1`: cache and TLB maintenance.
unfoldable pub maintenance : ℕ → Insn
maintenance word =
    let store = field word 21 1 == 0 in
    let op1 = field word 16 3 in
    let crn = field word 12 4 in
    let crm = field word 8 4 in
    let op2 = field word 5 3 in
    if store && op1 == 0b011 && crn == 0b0111 && crm == 0b0100 && op2 == 0b001
    then Insn.dc_zva (field word 0 5)
    else if store && crn == 0b1000
    then Insn.tlbi
    else if store && crn == 0b0111 && (crm == 0b0001 || crm == 0b0101)
    then Insn.ic
    else Insn.nop

unfoldable pub system : ℕ → Insn
system word =
    let op0 = field word 19 2 in
    if op0 == 0
    then hints word
    else if op0 == 1
    then maintenance word
    else Insn.sys_reg_move (field word 21 1 == 1)
        (sysreg_key op0 (field word 16 3) (field word 12 4) (field word 8 4) (field word 5 3))
        (field word 0 5)

-- The exception-generating group of `decode`.
unfoldable pub exception : ℕ → Insn
exception word =
    let imm16 = field word 5 16 in
    let opc = field word 21 3 in
    let ll = field word 0 2 in
    if opc == 0 && ll == 1
    then Insn.svc imm16
    else if opc == 0 && ll == 2
    then Insn.hvc imm16
    else if opc == 0 && ll == 3
    then Insn.smc imm16
    else if opc == 1 && ll == 0
    then Insn.brk imm16
    else Insn.unsupported word

unfoldable pub decode : ℕ → Insn
decode word =
    if field word 26 5 == 0b00101
    then branch_imm word
    else if field word 25 6 == 0b011010
    then compare_branch word
    else if field word 25 6 == 0b011011
    then test_branch word
    else if field word 24 8 == 0b0101_0100
    then cond_branch word
    else if field word 25 7 == 0b1101011
    then branch_reg word
    else if field word 22 10 == 0b1101010100
    then system word
    else if field word 24 8 == 0b1101_0100
    then exception word
    else Insn.unsupported word
