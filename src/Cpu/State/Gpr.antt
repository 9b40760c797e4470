-- ===== src/Cpu/State/Gpr.antt =====
-- The general-purpose registers: index 31 is the stack pointer or the zero register, any other
-- below 31 an entry of `x`.
use v.Base.{ℕ, ◌<◌, ◌≡◌, ◌∙◌, refl, Bool, some, arith}
use v.Base.{◌==◌, if◌then◌else◌, length, get_elem?-total, set?-total, Bool-cases, inl, inr}
use v.Cpu.State.{CpuState, sp_or_zr, read_gpr, write_gpr}

-- The registers are as many as the architecture has.
pub record HasRegs (cpu : CpuState) : Type 0 where
  pub count : length cpu.x ≡ 31

-- Every 5-bit register index can be read, in both contexts.
pub read_gpr_total :
    {cpu : CpuState} (idx : ℕ) (sp : Bool)
    → HasRegs cpu
    → idx < 32
    → (a : ℕ) × (read_gpr cpu idx sp ≡ some a)
unfolding read_gpr
read_gpr_total {cpu} idx sp h lt = elim (Bool-cases (idx == sp_or_zr)) [
  | inl zr ↦ rw zr (elim (Bool-cases sp) [ inl s ↦ (cpu.sp, rw s) | inr s ↦ (0, rw s) ])
  | inr gp ↦ rw gp (get_elem?-total cpu.x idx (ground arith))
]

-- Every 5-bit register index can be written, and the registers are then all present.
pub write_gpr_total :
    {cpu : CpuState} (idx : ℕ) (sp : Bool) (val : ℕ)
    → HasRegs cpu
    → idx < 32
    → (cpu' : CpuState) × (write_gpr cpu idx sp val ≡ some cpu') × HasRegs cpu'
unfolding write_gpr
write_gpr_total {cpu} idx sp val h lt = elim (Bool-cases (idx == sp_or_zr)) [
  | inl zr ↦ rw zr (elim (Bool-cases sp) [
    | inl s ↦ rw s (record cpu { sp = val }, refl, record { count = h.count })
    | inr s ↦ rw s (cpu, refl, h)
  ])
  | inr gp ↦
      let (ys, e, n, at) = set?-total cpu.x idx val (ground arith) in
      (record cpu { x = ys }, rw (gp, e), record { count = n ∙ h.count })
]

-- With all registers present, a read after a write of a register below 32 returns what was written
-- if the register is the same and below 31, the stack pointer (written or kept, by the write's
-- context) or zero if it is 31, and what it returned before if the register is another.
pub read_gpr-write_gpr :
    {cpu cpu' : CpuState} (idx j : ℕ) (sp sp' : Bool) (val : ℕ)
    → HasRegs cpu
    → idx < 32
    → write_gpr cpu idx sp val ≡ some cpu'
    → read_gpr cpu' j sp' ≡ (
        if idx == j
        then (if idx == sp_or_zr
            then (if sp' then (if sp then some val else some cpu.sp) else some 0)
            else some val)
        else read_gpr cpu j sp')
unfolding write_gpr read_gpr
read_gpr-write_gpr {cpu} idx j sp sp' val h lt e = elim (Bool-cases (idx == sp_or_zr)) [
  | inl zr ↦ ground arith
  | inr gp ↦ let (ys, f, n, at) = set?-total cpu.x idx val (ground arith) in ground (arith, f, at j)
]
