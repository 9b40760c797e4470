-- ===== src/Interp/Ldst/Cas.antt =====
-- crates/interp/src/ldst/cas.rs: compare and swap, of one register and of a pair.
use v.Base.{ℕ, ◌+◌, ◌-◌, ◌*◌, ◌^◌, ◌<<<◌, bit_and, one_at}
use v.Base.{Bool, true, false, ◌&&◌, Option, some, ◌==◌, leb, if◌then◌else◌, ◌>>=◌}
use v.Cpu.State.{CpuState, read_gpr}
use v.Interp.Memory.{GuestMem}
use v.Interp.MemAccess.{aborted, align_check, read, write}
use v.Interp.Ldst.{write_result}
use v.Interp.Ldst.Excl.{aligned}
use v.Interp.Ldst.Pair.{second}

-- The mask of the access width.
abbrev pub mask_of : ℕ → ℕ
mask_of size = let w = 8 <<< size in if leb 64 w then 2 ^ 64 - 1 else one_at w - 1

module _ (M : GuestMem) where
  open M use {Mem}

  -- The end of `exec`: Rs gets the old value.
  unfoldable pub returned : CpuState → Mem → Bool → ℕ → ℕ → Option (CpuState × Mem)
  returned cpu mem wide rs old = do cpu' ← write_result cpu wide rs old; some (cpu', mem)

  unfoldable pub exec : CpuState → Mem → ℕ → ℕ → ℕ → ℕ → Option (CpuState × Mem)
  exec cpu mem size rs rn rt = do
    addr ← read_gpr cpu rn true
    aligned M (align_check cpu addr (1 <<< size) true) mem λ checked. do
      (old, cpu₁, mem₁) ← read M checked mem addr size
      if aborted cpu₁ then some (cpu₁, mem₁) else (do
        expected ← read_gpr cpu₁ rs false
        if old == bit_and expected (mask_of size)
            then (do
              store_val ← read_gpr cpu₁ rt false
              (cpu₂, mem₂) ← write M cpu₁ mem₁ addr size (bit_and store_val (mask_of size))
              if aborted cpu₂ then some (cpu₂, mem₂) else returned cpu₂ mem₂ (size == 3) rs old)
            else returned cpu₁ mem₁ (size == 3) rs old)

  -- The end of `cas_pair`: Rs and the register after it get the old pair.
  unfoldable pub returned_pair : CpuState → Mem → Bool → ℕ → ℕ → ℕ → Option (CpuState × Mem)
  returned_pair cpu mem wide rs old1 old2 = do
    cpu₁ ← write_result cpu wide rs old1
    cpu₂ ← write_result cpu₁ wide (rs + 1) old2
    some (cpu₂, mem)

  -- The two writes of a pair that compared equal.
  unfoldable pub swap_pair : CpuState → Mem → ℕ → ℕ → ℕ → Option (CpuState × Mem)
  swap_pair cpu mem addr size rt = do
    new1 ← read_gpr cpu rt false
    new2 ← read_gpr cpu (rt + 1) false
    (cpu₁, mem₁) ← write M cpu mem addr size new1
    addr2 ← second addr (1 <<< size)
    write M cpu₁ mem₁ addr2 size new2

  unfoldable pub cas_pair : CpuState → Mem → ℕ → ℕ → ℕ → ℕ → Option (CpuState × Mem)
  unfolding swap_pair
  cas_pair cpu mem sz rs rn rt =
      let size = if sz == 1 then 3 else 2 in
      let mask = if size == 3 then 2 ^ 64 - 1 else 0xffff_ffff in
      do
        addr ← read_gpr cpu rn true
        aligned M (align_check cpu addr (2 * (1 <<< size)) true) mem λ checked. do
          (old1, cpu₁, mem₁) ← read M checked mem addr size
          addr2 ← second addr (1 <<< size)
          (old2, cpu₂, mem₂) ← read M cpu₁ mem₁ addr2 size
          if aborted cpu₂ then some (cpu₂, mem₂) else (do
            cmp1 ← read_gpr cpu₂ rs false
            cmp2 ← read_gpr cpu₂ (rs + 1) false
            if old1 == bit_and cmp1 mask && old2 == bit_and cmp2 mask
                then (do
                  (cpu₃, mem₃) ← swap_pair cpu₂ mem₂ addr size rt
                  if aborted cpu₃
                      then some (cpu₃, mem₃)
                      else returned_pair cpu₃ mem₃ (size == 3) rs old1 old2)
                else returned_pair cpu₂ mem₂ (size == 3) rs old1 old2)
