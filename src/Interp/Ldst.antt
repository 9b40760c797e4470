-- ===== src/Interp/Ldst.antt =====
-- crates/interp/src/ldst.rs: loads and stores of one register, in every addressing mode. A load or
-- store has no target for the program counter, so its outcome is the state and the memory; `none`
-- is a panic.
pub mod Pair
pub mod Excl
pub mod Cas
pub mod Atomic
pub mod Retry
use v.Base.{ℕ, ◌+◌, ◌-◌, ◌<<<◌, wrapping_add, asr, u64, u32, sign_extend}
use v.Base.{Bool, true, false, Option, none, some, ◌==◌, leb, if◌then◌else◌, ◌>>=◌, ◌>>◌, check}
use v.Base.{get_elem?, set?}
use v.Cpu.State.{CpuState, read_gpr, write_gpr, write_gpr_w}
use v.Decoder.Insn.{AddrMode}
use v.Interp.Memory.{GuestMem}
use v.Interp.MemAccess.{aborted, read, write, read_unpriv, write_unpriv, read_vec, write_vec}

-- Extends and scales the index register.
unfoldable pub extend_offset : CpuState → ℕ → ℕ → ℕ → Option ℕ
extend_offset cpu rm option shift = do
  x ← read_gpr cpu rm false
  some (
      u64 (
        (if option == 0b010 then u32 x else if option == 0b110 then sign_extend 32 (u32 x) else x)
        <<< shift))

-- The address, and the register and value of a base writeback.
unfoldable pub effective_address : CpuState → AddrMode → ℕ → Option (ℕ × Option (ℕ × ℕ))
unfolding extend_offset
effective_address cpu (AddrMode.unsigned_imm rn imm) pc = do
  base ← read_gpr cpu rn true
  some (wrapping_add base imm, none)
effective_address cpu (AddrMode.unscaled rn imm) pc = do
  base ← read_gpr cpu rn true
  some (wrapping_add base imm, none)
effective_address cpu (AddrMode.pre_index rn imm) pc = do
  base ← read_gpr cpu rn true
  some (wrapping_add base imm, some (rn, wrapping_add base imm))
effective_address cpu (AddrMode.post_index rn imm) pc = do
  base ← read_gpr cpu rn true
  some (base, some (rn, wrapping_add base imm))
effective_address cpu (AddrMode.reg_offset rn rm option shift) pc = do
  off ← extend_offset cpu rm option shift
  base ← read_gpr cpu rn true
  some (wrapping_add base off, none)
effective_address cpu (AddrMode.literal offset) pc = some (wrapping_add pc offset, none)

unfoldable pub writeback_base : CpuState → Option (ℕ × ℕ) → Option CpuState
writeback_base cpu none = some cpu
writeback_base cpu (some (rn, new_base)) =
    if aborted cpu then some cpu else write_gpr cpu rn true new_base

-- `write_gpr` or `write_gpr_w`, by the width of the result.
unfoldable pub write_result : CpuState → Bool → ℕ → ℕ → Option CpuState
write_result cpu dst64 rt val =
    if dst64 then write_gpr cpu rt false val else write_gpr_w cpu rt false val

-- `((raw << sh) as i64 >> sh) as u64`; a size above 3 has no such shift.
unfoldable pub extend_loaded : ℕ → Bool → ℕ → Option ℕ
extend_loaded raw signed size =
    let bits = 8 <<< size in
    if signed
    then (do check (leb bits 64); some (asr 64 (u64 (raw <<< (64 - bits))) (64 - bits)))
    else some raw

module _ (M : GuestMem) where
  open M use {Mem}

  -- The end of an executor.
  unfoldable pub written_back : CpuState → Mem → Option (ℕ × ℕ) → Option (CpuState × Mem)
  written_back cpu mem writeback = do cpu' ← writeback_base cpu writeback; some (cpu', mem)

  -- The four branches of `exec`.
  unfoldable pub load_vec : CpuState → Mem → ℕ → ℕ → ℕ → Option (ℕ × ℕ) → Option (CpuState × Mem)
  load_vec cpu mem size rt ea writeback = do
    (val, cpu', mem') ← read_vec M cpu mem ea size
    if aborted cpu' then some (cpu', mem') else (do
      vregs' ← set? cpu'.vregs rt val
      written_back (record cpu' { vregs = vregs' }) mem' writeback)

  unfoldable pub store_vec : CpuState → Mem → ℕ → ℕ → ℕ → Option (ℕ × ℕ) → Option (CpuState × Mem)
  store_vec cpu mem size rt ea writeback = do
    val ← get_elem? cpu.vregs rt
    (cpu', mem') ← write_vec M cpu mem ea size val
    if aborted cpu' then some (cpu', mem') else written_back cpu' mem' writeback

  unfoldable pub load :
      CpuState → Mem → ℕ → Bool → Bool → Bool → ℕ → ℕ → Option (ℕ × ℕ) → Option (CpuState × Mem)
  load cpu mem size signed dst64 unpriv rt ea writeback = do
    (raw, cpu', mem') ← if unpriv then read_unpriv M cpu mem ea size else read M cpu mem ea size
    if aborted cpu' then some (cpu', mem') else (do
      value ← extend_loaded raw signed size
      cpu″ ← write_result cpu' dst64 rt value
      written_back cpu″ mem' writeback)

  unfoldable pub store :
      CpuState → Mem → ℕ → Bool → ℕ → ℕ → Option (ℕ × ℕ) → Option (CpuState × Mem)
  store cpu mem size unpriv rt ea writeback = do
    val ← read_gpr cpu rt false
    (cpu', mem') ←
        if unpriv then write_unpriv M cpu mem ea size val else write M cpu mem ea size val
    if aborted cpu' then some (cpu', mem') else written_back cpu' mem' writeback

  unfoldable pub exec :
      CpuState
      → Mem
      → ℕ
      → Bool
      → Bool
      → Bool
      → Bool
      → Bool
      → ℕ
      → AddrMode
      → ℕ
      → Option (CpuState × Mem)
  exec cpu mem size is_load signed dst64 vec unpriv rt addr pc = do
    (ea, writeback) ← effective_address cpu addr pc
    if vec
        then (if is_load
            then load_vec cpu mem size rt ea writeback
            else store_vec cpu mem size rt ea writeback)
        else if is_load
        then load cpu mem size signed dst64 unpriv rt ea writeback
        else store cpu mem size unpriv rt ea writeback
