-- ===== src/Tests/Interp.antt =====
-- Instructions, exceptions, the ALU and blocks at concrete inputs.
use v.Base.{ℕ, Option, ◌%◌, ◌^◌, ◌≡◌, ◌⊎◌, refl, true, false, none, [], ◌∷◌}
use v.Base.{arith, ◌-◌, ◌==◌, if◌then◌else◌, length-replicate}
use v.Cpu.State.{CpuState, new}
use v.Cpu.State.Gpr.{HasRegs}
use v.Cpu.State.Banking.{IsValid}
use v.Decoder.Insn.{Insn}
use v.Decoder.Branch.{sysreg_key}
use v.Interp.System.{value_of, assign}
use v.Interp.System.Laws.{IsPlain, value_of-assign}
use v.Decoder.DpImm
use v.Decoder.DpReg
use v.Interp.Alu.{add_with_carry, add_with_carry_in}
use v.Interp.Alu.Carry.{IsSum, add_with_carry_in-IsSum}
use v.Interp.Alu.Compare.{Compares, add_with_carry-Compares}
use v.Interp.Exception.{take_exception, take_irq, eret}
use v.Interp.Exception.Return.{Entered, Restored, take_exception-Entered, eret-take_exception}
use v.Interp.Exception.Return.{eret-take_irq}
use v.Interp.Memory.{Memory, flat}
use v.Interp.Integer.{Outcome}
use v.Interp.Execute.{execute}
use v.Interp.Execute.Total.{SucceedsOn, execute-dp_imm, execute-dp_reg}

-- No executor of another class is called.
abbrev never : CpuState → Insn → ℕ → Outcome
never cpu insn pc = none

-- EL0, on its own stack pointer.
abbrev user : CpuState
user = record new {
  sp = 0x7fff_0000;
  pc = 0x400_000;
  sp_el = 0 ∷ 0xffff_8000 ∷ 0 ∷ 0 ∷ [];
  el = 0;
  spsel = false;
}

abbrev nothing : Memory
nothing = record { base = 0; bytes = [] }

user-IsValid : IsValid user
user-IsValid = record { banks = refl; level = omega arith; masks = omega arith }

user-HasRegs : HasRegs user
user-HasRegs = record { count = length-replicate {A = ℕ} 31 0 }

-- add x0, sp, #16
execute-dp_imm_example :
    (DpImm.decode 0x9100_43e0 ≡ Insn.unsupported 0x9100_43e0)
    ⊎ SucceedsOn nothing (execute flat never user nothing (DpImm.decode 0x9100_43e0) 0x400_000)
execute-dp_imm_example = execute-dp_imm flat never user-HasRegs nothing 0x400_000 0x9100_43e0

-- udiv x0, x1, x2
execute-dp_reg_example :
    (DpReg.decode 0x9ac2_0820 ≡ Insn.unsupported 0x9ac2_0820)
    ⊎ SucceedsOn nothing (execute flat never user nothing (DpReg.decode 0x9ac2_0820) 0x400_000)
execute-dp_reg_example = execute-dp_reg flat never user-HasRegs nothing 0x400_000 0x9ac2_0820

take_exception-Entered_example : Entered user 0x400_004 (take_exception user 0x15 7 0x400_004).0
take_exception-Entered_example = take_exception-Entered user 0x15 7 0x400_004 user-IsValid

eret-take_exception_example :
    Restored user 0x400_004 (eret (take_exception user 0x15 7 0x400_004).0)
eret-take_exception_example = eret-take_exception user 0x15 7 0x400_004 user-IsValid

eret-take_irq_example : Restored user 0x400_000 (eret (take_irq user).0)
eret-take_irq_example = eret-take_irq user user-IsValid

add_with_carry_in-IsSum_example :
    IsSum 32 (0x1_ffff_ffff % 2 ^ 32) (5 % 2 ^ 32) 1 (add_with_carry_in 0x1_ffff_ffff 5 1 false)
add_with_carry_in-IsSum_example =
    add_with_carry_in-IsSum 0x1_ffff_ffff 5 1 false (omega arith) (omega arith) (omega arith)

add_with_carry-Compares_example :
    Compares 64 (3 % 2 ^ 64) ((2 ^ 64 - 2) % 2 ^ 64) (add_with_carry 3 (2 ^ 64 - 2) true true).1
add_with_carry-Compares_example =
    add_with_carry-Compares 3 (2 ^ 64 - 2) true (omega arith) (omega arith)

-- A stream of NOPs with an SVC at 0x1008.
abbrev stream : ℕ → Insn
stream pc = if pc == 0x1008 then Insn.svc 0 else Insn.nop

abbrev no_target : Option ℕ
no_target = none

-- MSR to SP_EL1, from EL0.
bank_key-IsPlain : IsPlain 0x3_4410
unfolding sysreg_key
bank_key-IsPlain = record {
  daif = refl;
  nzcv = refl;
  cntv_ctl = refl;
  cntp_ctl = refl;
  cntv_tval = refl;
  cntp_tval = refl;
}

value_of-assign_example : value_of (assign user 0x3_4410 0xffff_9000) 0x3_4410 ≡ 0xffff_9000
value_of-assign_example = value_of-assign user 0x3_4410 0xffff_9000 user-IsValid bank_key-IsPlain
