-- ===== src/Interp/Ldst/Excl.antt =====
-- crates/interp/src/ldst/excl.rs: the exclusive loads, which arm the monitor, and the exclusive
-- stores, which succeed while it is armed and the value in memory is the one that was loaded.
pub mod Monitor
use v.Base.{ℕ, ◌+◌, ◌*◌, ◌<<<◌, bit_of}
use v.Base.{Bool, true, false, not, ◌&&◌, Option, none, some, ◌==◌, if◌then◌else◌, ◌>>=◌}
use v.Cpu.State.{CpuState, excl, arm_excl, clear_excl, read_gpr, write_gpr_w}
use v.Interp.Memory.{GuestMem}
use v.Interp.MemAccess.{aborted, align_check, read, write}
use v.Interp.Ldst.{write_result}
use v.Interp.Ldst.Pair.{second}

module _ (M : GuestMem) where
  open M use {Mem}

  -- What follows the alignment check: on a misaligned address, nothing.
  unfoldable pub aligned :
      CpuState × Bool → Mem → (CpuState → Option (CpuState × Mem)) → Option (CpuState × Mem)
  aligned (cpu, misaligned) mem rest = if misaligned then some (cpu, mem) else rest cpu

  unfoldable pub load : CpuState → Mem → ℕ → ℕ → ℕ → Option (CpuState × Mem)
  load cpu mem size rt rn = do
    addr ← read_gpr cpu rn true
    aligned (align_check cpu addr (1 <<< size) false) mem λ checked. do
      (val, cpu', mem') ← read M checked mem addr size
      if aborted cpu' then some (cpu', mem') else (do
        cpu″ ← write_result (arm_excl cpu' addr val) (size == 3) rt val
        some (cpu″, mem'))

  -- `matches!(armed, Some((a, v)) if a == addr && read(cpu, mem, addr, size) == v)`: memory is read
  -- only where the address is the armed one.
  unfoldable pub still_armed :
      Option (ℕ × ℕ) → CpuState → Mem → ℕ → ℕ → Option (Bool × CpuState × Mem)
  still_armed none cpu mem addr size = some (false, cpu, mem)
  still_armed (some (a, val)) cpu mem addr size =
      if a == addr
      then (do (now, cpu', mem') ← read M cpu mem addr size; some (now == val, cpu', mem'))
      else some (false, cpu, mem)

  -- The end of both stores: Ws is 0 on success.
  unfoldable pub concluded : CpuState → Mem → ℕ → Bool → Option (CpuState × Mem)
  concluded cpu mem rs success = do
    cpu' ← write_gpr_w (clear_excl cpu) rs false (bit_of (not success))
    some (cpu', mem)

  -- The write of a successful store.
  unfoldable pub store_one : CpuState → Mem → ℕ → ℕ → ℕ → Option (CpuState × Mem)
  store_one cpu mem addr size rt = do
    store_val ← read_gpr cpu rt false
    write M cpu mem addr size store_val

  unfoldable pub store : CpuState → Mem → ℕ → ℕ → ℕ → ℕ → Option (CpuState × Mem)
  unfolding still_armed concluded store_one
  store cpu mem size rs rt rn = do
    addr ← read_gpr cpu rn true
    aligned (align_check cpu addr (1 <<< size) true) mem λ checked. do
      (success, cpu₁, mem₁) ← still_armed (excl checked) checked mem addr size
      (cpu₂, mem₂) ← if success then store_one cpu₁ mem₁ addr size rt else some (cpu₁, mem₁)
      concluded cpu₂ mem₂ rs success

  unfoldable pub load_pair : CpuState → Mem → ℕ → ℕ → ℕ → ℕ → Option (CpuState × Mem)
  load_pair cpu mem size rt rt2 rn = do
    addr ← read_gpr cpu rn true
    aligned (align_check cpu addr (2 * (1 <<< size)) false) mem λ checked. do
      (v1, cpu₁, mem₁) ← read M checked mem addr size
      addr2 ← second addr (1 <<< size)
      (v2, cpu₂, mem₂) ← read M cpu₁ mem₁ addr2 size
      if aborted cpu₂ then some (cpu₂, mem₂) else (do
        cpu₃ ← write_result (arm_excl cpu₂ addr v1) (size == 3) rt v1
        cpu₄ ← write_result cpu₃ (size == 3) rt2 v2
        some (cpu₄, mem₂))

  -- The writes of a successful store.
  unfoldable pub store_two : CpuState → Mem → ℕ → ℕ → ℕ → ℕ → Option (CpuState × Mem)
  store_two cpu mem addr size rt rt2 = do
    v1 ← read_gpr cpu rt false
    v2 ← read_gpr cpu rt2 false
    (cpu', mem') ← write M cpu mem addr size v1
    addr2 ← second addr (1 <<< size)
    write M cpu' mem' addr2 size v2

  unfoldable pub store_pair : CpuState → Mem → ℕ → ℕ → ℕ → ℕ → ℕ → Option (CpuState × Mem)
  unfolding still_armed concluded store_two
  store_pair cpu mem size rs rt rt2 rn = do
    addr ← read_gpr cpu rn true
    aligned (align_check cpu addr (2 * (1 <<< size)) true) mem λ checked. do
      (success, cpu₁, mem₁) ← still_armed (excl checked) checked mem addr size
      (cpu₂, mem₂) ← if success then store_two cpu₁ mem₁ addr size rt rt2 else some (cpu₁, mem₁)
      concluded cpu₂ mem₂ rs success
