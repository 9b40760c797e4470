-- ===== src/Interp/System/Laws.antt =====
-- System registers and the translation cache.
use v.Base.{ℕ, ◌≡◌, sym, false}
use v.Base.{some, ◌==◌, bind-eq-some, arith}
use mathlib.Core.Path.{subst}
use v.Cpu.State.{CpuState, flush_tlb}
use v.Cpu.Tlb.Laws.{IsValid}
use v.Interp.Memory.{GuestMem}
use v.Interp.Mmu.Refine.{HasRegions, IsCoherent, flush_tlb-IsCoherent}
use v.Cpu.State.Banking
use v.Cpu.State.Banking.{read_sp_el-write_sp_el}
use v.Interp.Timer
use v.Interp.Timer.{key_cntv_ctl, key_cntp_ctl, key_cntv_tval, key_cntp_tval}
use v.Interp.System.{key_daif, key_nzcv, write_xlate_reg, assign_field, assign, value_of}
use v.Interp.System.{read_xlate_reg}

tlb-assign_field :
    (cpu : CpuState) (key val : ℕ) {written : CpuState}
    → assign_field cpu key val ≡ some written
    → written.tlb ≡ cpu.tlb
unfolding assign_field
tlb-assign_field cpu key val e = ground arith

-- A write of SCTLR, TCR or a TTBR leaves no stale translation: whatever memory holds, the cache,
-- if it had all its slots, is then coherent with the new registers, if they have region sizes of
-- at most 51.
pub write_xlate_reg-IsCoherent :
    (M : GuestMem) (cpu : CpuState) (mem : M.Mem) (key val : ℕ) {cpu' : CpuState}
    → IsValid cpu.tlb
    → write_xlate_reg cpu key val ≡ some cpu'
    → HasRegions cpu'
    → IsCoherent M cpu' mem
unfolding write_xlate_reg flush_tlb
write_xlate_reg-IsCoherent M cpu mem key val {cpu'} valid e regions =
    let (written, assigns, flushes) = bind-eq-some (assign_field cpu key val) _ e in
    let same : flush_tlb written ≡ cpu' = cc in
    let before : HasRegions (flush_tlb written) = subst HasRegions (sym same) regions in
    subst (λ c. IsCoherent M c mem) same
      (flush_tlb-IsCoherent M written mem
        (subst IsValid (sym (tlb-assign_field cpu key val assigns)) valid)
        (record { low = before.low; high = before.high }))

-- A register that is stored as it is: neither a field of PSTATE nor a computed timer register.
pub record IsPlain (key : ℕ) : Type 0 where
  pub daif : (key == key_daif) ≡ false
  pub nzcv : (key == key_nzcv) ≡ false
  pub cntv_ctl : (key == key_cntv_ctl) ≡ false
  pub cntp_ctl : (key == key_cntp_ctl) ≡ false
  pub cntv_tval : (key == key_cntv_tval) ≡ false
  pub cntp_tval : (key == key_cntp_tval) ≡ false

-- In a valid state, what an MSR writes to a plain register an MRS of the register reads, whichever
-- field, stack pointer bank or entry of the map holds it; plain are all but DAIF, NZCV and the CTL
-- and TVAL registers of the timers.
pub value_of-assign :
    (cpu : CpuState) (key val : ℕ)
    → Banking.IsValid cpu
    → IsPlain key
    → value_of (assign cpu key val) key ≡ val
unfolding value_of assign write_xlate_reg assign_field read_xlate_reg flush_tlb Timer.read
    Timer.write
value_of-assign cpu key val h plain = ground (
  arith,
  read_sp_el-write_sp_el cpu 0 val 0 h (omega arith),
  read_sp_el-write_sp_el cpu 1 val 1 h (omega arith),
)
