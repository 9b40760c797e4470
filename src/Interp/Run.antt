-- ===== src/Interp/Run.antt =====
-- crates/interp/src/run.rs: fetch, decode, execute, and the abort that an access left. `run` has
-- `fuel` rounds and is `none` when they are used up or where the source panics.
pub mod Bounded
pub mod Faults
use v.Base.{ℕ, zero, suc, ◌+◌, wrapping_add, Bool, true, false, ◌&&◌, Option, none, some, ◌==◌}
use v.Base.{◌!=◌, leb, if◌then◌else◌, ◌>>=◌, ok, err}
use v.Cpu.State.{CpuState, Abort}
use v.Decoder.Insn.{Insn}
use v.Decoder.Decode.{decode}
use v.Interp.Exception.{inst_abort, data_abort}
use v.Interp.Execute.{execute}
use v.Interp.Integer.{Outcome}
use v.Interp.Memory.{GuestMem}
use v.Interp.Mmu.{Access, translate}

pub data StopReason : Type 0 where
  until_reached : StopReason
  count_reached : StopReason
  unsupported : (pc word : ℕ) → StopReason
  powered_off : StopReason

pub data Step : Type 0 where
  next : (pc : ℕ) → Step
  unsupported : (pc word : ℕ) → Step

-- `if let Insn::Unsupported { word } = insn`
unfoldable pub refused : Insn → Option ℕ
refused (Insn.unsupported word) = some word
refused _ = none

-- `next.unwrap_or_else(|| pc.wrapping_add(4))`
abbrev pub next_pc : Option ℕ → ℕ → ℕ
next_pc none pc = wrapping_add pc 4
next_pc (some target) pc = target

-- `cpu.pc = exception(...)`: an entry that returns the address of its vector.
abbrev pub vectored : CpuState × ℕ → CpuState
vectored (cpu, target) = record cpu { pc = target }

-- The end of an instruction that left the abort `abort`, which is taken out of `cpu`.
unfoldable pub retire : Option Abort → CpuState → Option ℕ → ℕ → CpuState
retire none cpu target pc = record cpu { pc = next_pc target pc }
retire (some abort) cpu target pc =
    vectored (data_abort (record cpu { pending_abort = none }) pc abort)

module _ (M : GuestMem) (others : CpuState → Insn → ℕ → Outcome) where
  open M use {Mem, read_u32}

  -- An instruction that was fetched and is supported.
  unfoldable pub executed_insn : CpuState → Mem → Insn → ℕ → Option (CpuState × Mem)
  executed_insn cpu mem insn pc = do
    (cpu', target, mem') ← execute M others cpu mem insn pc
    some (retire cpu'.pending_abort cpu' target pc, mem')

  -- A step once its word is read.
  unfoldable pub fetched : CpuState → Mem → ℕ → ℕ → Option (Step × CpuState × Mem)
  unfolding executed_insn
  fetched cpu mem word pc = elim (refused (decode word)) [
    | some w ↦ some (Step.unsupported pc w, cpu, mem)
    | none ↦ (do (c, mem') ← executed_insn cpu mem (decode word) pc; some (Step.next c.pc, c, mem'))
  ]

  unfoldable pub step : CpuState → Mem → Option (Step × CpuState × Mem)
  unfolding fetched
  step cpu mem = do
    (found, cpu', mem') ← translate M cpu mem cpu.pc Access.exec cpu.el
    elim found [
      | err fsc ↦ let c = vectored (inst_abort cpu' cpu.pc fsc) in some (Step.next c.pc, c, mem')
      | ok fetch_pa ↦ (do (word, mem″) ← read_u32 mem' fetch_pa; fetched cpu' mem″ word cpu.pc)
    ]

  -- One round of the loop of `run`; `rest` is the rest of the loop.
  unfoldable pub round :
      CpuState
      → Mem
      → (CpuState → Mem → Option (StopReason × CpuState × Mem))
      → Option (StopReason × CpuState × Mem)
  unfolding executed_insn
  round cpu mem rest = do
    (found, cpu', mem') ← translate M cpu mem cpu.pc Access.exec cpu.el
    elim found [
      | err fsc ↦ rest (vectored (inst_abort cpu' cpu.pc fsc)) mem'
      | ok fetch_pa ↦ (do
        (word, mem″) ← read_u32 mem' fetch_pa
        elim (refused (decode word)) [
          | some w ↦ some (StopReason.unsupported cpu.pc w, cpu', mem″)
          | none ↦ (do (c, mem‴) ← executed_insn cpu' mem″ (decode word) cpu.pc; rest c mem‴)
        ])
    ]

  -- The loop of `run` after `executed` instructions.
  unfoldable pub run_from : ℕ → CpuState → Mem → ℕ → ℕ → ℕ → Option (StopReason × CpuState × Mem)
  run_from zero cpu mem until count executed = none
  run_from (suc fuel) cpu mem until count executed =
      let more = round cpu mem (λ c m. run_from fuel c m until count (executed + 1)) in
      if cpu.pc == until
      then some (StopReason.until_reached, cpu, mem)
      else if count != 0 && leb count executed
      then some (StopReason.count_reached, cpu, mem)
      else more

  unfoldable pub run : ℕ → CpuState → Mem → ℕ → ℕ → Option (StopReason × CpuState × Mem)
  run fuel cpu mem until count = run_from fuel cpu mem until count 0
