-- ===== src/Interp/Alu/Operands.antt =====
-- Operands are read and written without a panic.
use v.Base.{ℕ, ◌<◌, ◌≡◌, Bool, true, false, some, bit_and}
use v.Cpu.State.{CpuState, read_gpr_w, write_gpr_w}
use v.Cpu.State.Gpr.{HasRegs, read_gpr_total, write_gpr_total}
use v.Interp.Alu.{read, write}

pub read_total :
    {cpu : CpuState} (idx : ℕ) (sf sp : Bool)
    → HasRegs cpu
    → idx < 32
    → (a : ℕ) × (read cpu idx sf sp ≡ some a)
unfolding read read_gpr_w
read_total idx true sp h lt = read_gpr_total idx sp h lt
read_total idx false sp h lt =
    let (a, e) = read_gpr_total idx sp h lt in (bit_and a 0xffff_ffff, rw e)

pub write_total :
    {cpu : CpuState} (idx : ℕ) (sf : Bool) (val : ℕ) (sp : Bool)
    → HasRegs cpu
    → idx < 32
    → (cpu' : CpuState) × (write cpu idx sf val sp ≡ some cpu') × HasRegs cpu'
unfolding write write_gpr_w
write_total idx true val sp h lt = write_gpr_total idx sp val h lt
write_total idx false val sp h lt = write_gpr_total idx sp (bit_and val 0xffff_ffff) h lt
