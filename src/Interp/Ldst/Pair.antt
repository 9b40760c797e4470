-- ===== src/Interp/Ldst/Pair.antt =====
-- crates/interp/src/ldst/pair.rs: load and store of a pair of registers. `addr + step` on u64
-- panics where it overflows.
use v.Base.{ℕ, ◌+◌, ◌^◌, ◌<<<◌, wrapping_add, sign_extend, u32}
use v.Base.{Bool, true, false, ◌||◌, Option, some, ltb, if◌then◌else◌, ◌>>=◌, ◌>>◌, check}
use v.Base.{get_elem?, set?}
use v.Cpu.State.{CpuState, read_gpr, write_gpr}
use v.Decoder.Insn.{PairIndex}
use v.Interp.Memory.{GuestMem}
use v.Interp.MemAccess.{aborted, read, write, read_vec, write_vec}
use v.Interp.Ldst.{write_result}

abbrev pub pair_size : Bool → ℕ
pair_size width8 = if width8 then 3 else 2

-- The address of the first element.
unfoldable pub pair_address : PairIndex → ℕ → ℕ → ℕ
pair_address PairIndex.post base offset = base
pair_address PairIndex.offset base offset = wrapping_add base offset
pair_address PairIndex.pre base offset = wrapping_add base offset

unfoldable pub do_writeback : CpuState → PairIndex → ℕ → ℕ → ℕ → Option CpuState
do_writeback cpu PairIndex.offset rn base offset = some cpu
do_writeback cpu _ rn base offset =
    if aborted cpu then some cpu else write_gpr cpu rn true (wrapping_add base offset)

-- The address of the second element.
unfoldable pub second : ℕ → ℕ → Option ℕ
second addr step = do check (ltb (addr + step) (2 ^ 64)); some (addr + step)

module _ (M : GuestMem) where
  open M use {Mem}

  unfoldable pub load_elem : CpuState → Mem → ℕ → Bool → Bool → Option (ℕ × CpuState × Mem)
  load_elem cpu mem addr width8 signed = do
    (raw, cpu', mem') ← read M cpu mem addr (pair_size width8)
    some (if signed then sign_extend 32 (u32 raw) else raw, cpu', mem')

  -- The four branches of `exec`; `ended` is its end.
  unfoldable pub load_vec :
      CpuState
      → Mem
      → ℕ
      → ℕ
      → ℕ
      → ℕ
      → (CpuState → Mem → Option (CpuState × Mem))
      → Option (CpuState × Mem)
  load_vec cpu mem vesize rt rt2 ea ended = do
    (v1, cpu₁, mem₁) ← read_vec M cpu mem ea vesize
    ea2 ← second ea (1 <<< vesize)
    (v2, cpu₂, mem₂) ← read_vec M cpu₁ mem₁ ea2 vesize
    if aborted cpu₂ then some (cpu₂, mem₂) else (do
      once ← set? cpu₂.vregs rt v1
      twice ← set? once rt2 v2
      ended (record cpu₂ { vregs = twice }) mem₂)

  unfoldable pub store_vec :
      CpuState
      → Mem
      → ℕ
      → ℕ
      → ℕ
      → ℕ
      → (CpuState → Mem → Option (CpuState × Mem))
      → Option (CpuState × Mem)
  store_vec cpu mem vesize rt rt2 ea ended = do
    v1 ← get_elem? cpu.vregs rt
    v2 ← get_elem? cpu.vregs rt2
    (cpu₁, mem₁) ← write_vec M cpu mem ea vesize v1
    ea2 ← second ea (1 <<< vesize)
    (cpu₂, mem₂) ← write_vec M cpu₁ mem₁ ea2 vesize v2
    if aborted cpu₂ then some (cpu₂, mem₂) else ended cpu₂ mem₂

  unfoldable pub load :
      CpuState
      → Mem
      → Bool
      → Bool
      → ℕ
      → ℕ
      → ℕ
      → (CpuState → Mem → Option (CpuState × Mem))
      → Option (CpuState × Mem)
  unfolding load_elem
  load cpu mem signed width8 rt rt2 ea ended = do
    (v1, cpu₁, mem₁) ← load_elem cpu mem ea width8 signed
    ea2 ← second ea (if width8 then 8 else 4)
    (v2, cpu₂, mem₂) ← load_elem cpu₁ mem₁ ea2 width8 signed
    if aborted cpu₂ then some (cpu₂, mem₂) else (do
      cpu₃ ← write_result cpu₂ (width8 || signed) rt v1
      cpu₄ ← write_result cpu₃ (width8 || signed) rt2 v2
      ended cpu₄ mem₂)

  unfoldable pub store :
      CpuState
      → Mem
      → Bool
      → ℕ
      → ℕ
      → ℕ
      → (CpuState → Mem → Option (CpuState × Mem))
      → Option (CpuState × Mem)
  store cpu mem width8 rt rt2 ea ended = do
    v1 ← read_gpr cpu rt false
    v2 ← read_gpr cpu rt2 false
    (cpu₁, mem₁) ← write M cpu mem ea (pair_size width8) v1
    ea2 ← second ea (if width8 then 8 else 4)
    (cpu₂, mem₂) ← write M cpu₁ mem₁ ea2 (pair_size width8) v2
    if aborted cpu₂ then some (cpu₂, mem₂) else ended cpu₂ mem₂

  unfoldable pub ended : PairIndex → ℕ → ℕ → ℕ → CpuState → Mem → Option (CpuState × Mem)
  ended index rn base offset cpu mem = do
    cpu' ← do_writeback cpu index rn base offset
    some (cpu', mem)

  unfoldable pub exec :
      CpuState
      → Mem
      → Bool
      → Bool
      → Bool
      → Bool
      → ℕ
      → ℕ
      → ℕ
      → ℕ
      → ℕ
      → PairIndex
      → Option (CpuState × Mem)
  exec cpu mem is_load signed width8 vec vesize rt rt2 rn offset index = do
    base ← read_gpr cpu rn true
    let ea = pair_address index base offset in
        let end = ended index rn base offset in
        if vec
        then (if is_load
            then load_vec cpu mem vesize rt rt2 ea end
            else store_vec cpu mem vesize rt rt2 ea end)
        else if is_load
        then load cpu mem signed width8 rt rt2 ea end
        else store cpu mem width8 rt rt2 ea end
