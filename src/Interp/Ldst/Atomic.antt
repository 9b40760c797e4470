-- ===== src/Interp/Ldst/Atomic.antt =====
-- crates/interp/src/ldst/atomic.rs: atomic read-modify-write.
use v.Base.{ℕ, ◌^◌, ◌<<<◌, bit_and, bit_or, bit_xor, not64, wrapping_add, min, max}
use v.Base.{Bool, true, false, Option, some, ◌==◌, leb, if◌then◌else◌, ◌>>=◌}
use v.Cpu.State.{CpuState, read_gpr}
use v.Interp.Memory.{GuestMem}
use v.Interp.MemAccess.{aborted, align_check, read, write}
use v.Interp.Ldst.Excl.{aligned}
use v.Interp.Ldst.Cas.{mask_of, returned}

-- `(a as i64) <= (b as i64)`: the order of the patterns with the sign bit turned.
abbrev pub signed_le : ℕ → ℕ → Bool
signed_le a b = leb (wrapping_add a (2 ^ 63)) (wrapping_add b (2 ^ 63))

unfoldable pub combine : ℕ → ℕ → ℕ → ℕ
combine op old s =
    if op == 0
    then wrapping_add old s
    else if op == 1
    then bit_and old (not64 s)
    else if op == 2
    then bit_xor old s
    else if op == 3
    then bit_or old s
    else if op == 4
    then (if signed_le s old then old else s)
    else if op == 5
    then (if signed_le old s then old else s)
    else if op == 6
    then max old s
    else if op == 7
    then min old s
    else s

module _ (M : GuestMem) where
  open M use {Mem}

  unfoldable pub exec : CpuState → Mem → ℕ → ℕ → ℕ → ℕ → ℕ → Option (CpuState × Mem)
  unfolding combine
  exec cpu mem size op rs rn rt = do
    addr ← read_gpr cpu rn true
    aligned M (align_check cpu addr (1 <<< size) true) mem λ checked. do
      (old, cpu₁, mem₁) ← read M checked mem addr size
      if aborted cpu₁ then some (cpu₁, mem₁) else (do
        operand ← read_gpr cpu₁ rs false
        (cpu₂, mem₂) ← write M cpu₁ mem₁ addr size (combine op old (bit_and operand (mask_of size)))
        if aborted cpu₂ then some (cpu₂, mem₂) else returned M cpu₂ mem₂ (size == 3) rt old)
