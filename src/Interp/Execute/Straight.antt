-- ===== src/Interp/Execute/Straight.antt =====
-- Inside a block control goes from each word to the next.
use v.Base.{ℕ, Bool, true, false}
use v.Base.Ensures.{Ensures}
use v.Cpu.State.{CpuState}
use v.Decoder.Insn.{Insn}
use v.Interp.Integer.{Outcome}
use v.Interp.Integer.Straight.{Falls}
use v.Interp.Ldst.{write_result}
use v.Interp.Simd.Struct
use v.Interp.Ldst.Excl
use v.Interp.Ldst.Cas
use v.Interp.Ldst.Atomic
use v.Interp.Ldst.Pair
use v.Interp.Ldst
use v.Interp.Psci
use v.Interp.System

-- BRK traps without ending its block.
abbrev pub is_brk : Insn → Bool
is_brk (Insn.brk imm16) = true
is_brk _ = false

-- The executors that the dispatch takes as a parameter return no target.
pub record ReturnNone (others : CpuState → Insn → ℕ → Outcome) : Type 0 where
  pub falls : (cpu : CpuState) (insn : Insn) (pc : ℕ) → Falls (others cpu insn pc)
