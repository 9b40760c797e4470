-- ===== src/Interp/Integer.antt =====
-- crates/interp/src/: the executors of the integer instructions. An executor returns the state and
-- the source's `Option<u64>`, and `none` where the source panics.
pub mod Immediate
pub mod Register
pub mod Sources
pub mod Branches
pub mod Total
pub mod Straight
use v.Base.{ℕ, ◌<◌, ◌≡◌, refl, Bool, Option, none, some, ◌>>=◌}
use v.Cpu.State.{CpuState}
use v.Cpu.State.Gpr.{HasRegs}
use v.Interp.Alu.{write}
use v.Interp.Alu.Operands.{write_total}

-- What an executor returns.
abbrev pub Outcome : Type 0
Outcome = Option (CpuState × Option ℕ)

-- `write(cpu, rd, sf, result, sp); None`
unfoldable pub finish : CpuState → ℕ → Bool → ℕ → Bool → Outcome
finish cpu rd sf result sp = do cpu' ← write cpu rd sf result sp; some (cpu', none)

-- The outcome is a state with all its registers.
abbrev pub Succeeds : Outcome → Type 0
Succeeds o = (cpu : CpuState) × (next : Option ℕ) × (o ≡ some (cpu, next)) × HasRegs cpu

pub finish-Succeeds :
    {cpu : CpuState} (rd : ℕ) (sf : Bool) (result : ℕ) (sp : Bool)
    → HasRegs cpu
    → rd < 32
    → Succeeds (finish cpu rd sf result sp)
unfolding finish
finish-Succeeds rd sf result sp h lt =
    let (cpu', e, h') = write_total rd sf result sp h lt in (cpu', none, rw e, h')
