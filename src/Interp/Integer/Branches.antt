-- ===== src/Interp/Integer/Branches.antt =====
-- crates/interp/src/{branch_imm,branch_reg,compare_branch,cond_branch,test_branch}.rs.
use v.Base.{ℕ, ◌>>>◌, wrapping_add, bit_and, Bool, false, not, none, some}
use v.Base.{ltb, ◌==◌, ◌!=◌, if◌then◌else◌, ◌>>=◌, ◌>>◌, check}
use v.Cpu.State.{CpuState, read_gpr, write_gpr}
use v.Interp.Alu.{eval_cond, read}
use v.Interp.Integer.{Outcome}

unfoldable pub branch_imm : CpuState → Bool → ℕ → ℕ → Outcome
branch_imm cpu link offset pc = do
  cpu' ← if link then write_gpr cpu 30 false (wrapping_add pc 4) else some cpu
  some (cpu', some (wrapping_add pc offset))

unfoldable pub branch_reg : CpuState → ℕ → ℕ → ℕ → Outcome
branch_reg cpu opc rn pc = do
  target ← read_gpr cpu rn false
  cpu' ← if opc == 1 then write_gpr cpu 30 false (wrapping_add pc 4) else some cpu
  some (cpu', some target)

unfoldable pub compare_branch : CpuState → Bool → Bool → ℕ → ℕ → ℕ → Outcome
compare_branch cpu sf negate rt offset pc = do
  x ← read cpu rt sf false
  let take = if negate then x != 0 else x == 0
  some (cpu, if take then some (wrapping_add pc offset) else none)

unfoldable pub cond_branch : CpuState → ℕ → ℕ → ℕ → Outcome
cond_branch cpu cond offset pc =
    some (cpu, if eval_cond cond cpu.flags then some (wrapping_add pc offset) else none)

unfoldable pub test_branch : CpuState → ℕ → Bool → ℕ → ℕ → ℕ → Outcome
test_branch cpu bit negate rt offset pc = do
  x ← read_gpr cpu rt false
  check (ltb bit 64)
  let set = bit_and (x >>> bit) 1 == 1
  let take = if negate then set else not set
  some (cpu, if take then some (wrapping_add pc offset) else none)
