-- ===== src/Interp/Alu.antt =====
-- crates/interp/src/alu.rs, cond.rs and regs.rs: shifts, addition with carry and its flags, the
-- condition codes, and operands at the two widths.
pub mod Carry
pub mod Compare
pub mod Operands
use v.Base.{ℕ, zero, suc, ◌+◌, ◌-◌, ◌*◌, ◌/◌, ◌%◌, ◌^◌, ◌<<<◌, ◌>>>◌, one_at, not64, u8, u32, u64}
use v.Base.{bit_and, bit_or, bit_xor, asr, rotate_right, Bool, true, false, not, ◌&&◌, ◌||◌, same}
use v.Base.{Option, none, some, ◌==◌, ◌!=◌, leb, ltb, if◌then◌else◌, ◌>>=◌}
use v.Cpu.Flags.{Flags}
use v.Cpu.State.{CpuState, read_gpr, read_gpr_w, write_gpr, write_gpr_w}
use v.Decoder.Insn.{ShiftType, lsl, lsr, asr as asr_type, ror}

abbrev pub width_of : Bool → ℕ
width_of sf = if sf then 64 else 32

-- The `match shift` of `apply_shift`.
pub shifted : ℕ → ShiftType → ℕ → Bool → ℕ
shifted x lsl amount sf = u64 (x <<< amount)
shifted x lsr amount sf = if sf then x >>> amount else bit_and x 0xffff_ffff >>> amount
shifted x asr_type amount sf = if sf then asr 64 x amount else asr 32 (u32 x) amount
shifted x ror amount sf = if sf then rotate_right 64 x amount else rotate_right 32 (u32 x) amount

unfoldable pub apply_shift : ℕ → ShiftType → ℕ → Bool → ℕ
unfolding shifted
apply_shift val shift amount sf =
    let amount' = amount % width_of sf in
    let x = if sf then val else bit_and val 0xffff_ffff in
    let res = shifted x shift amount' sf in if sf then res else bit_and res 0xffff_ffff

unfoldable pub flags_from : ℕ → ℕ → Bool → Bool → Flags
flags_from result width carry overflow = record {
  n = bit_and result (one_at (width - 1)) != 0;
  z = bit_and result (one_at width - 1) == 0;
  c = carry;
  vf = overflow;
}

-- `overflowing_add` on u64 is the sum modulo 2 ^ 64 and whether it was reduced.
unfoldable pub add_with_carry_in : ℕ → ℕ → ℕ → Bool → ℕ × Flags
add_with_carry_in a b carry_in true =
    let s₁ = u64 (a + b) in
    let c₁ = leb (2 ^ 64) (a + b) in
    let s = u64 (s₁ + carry_in) in
    let c₂ = leb (2 ^ 64) (s₁ + carry_in) in
    let overflow = bit_and (bit_and (bit_xor a s) (bit_xor b s) >>> 63) 1 == 1 in
    (s, flags_from s 64 (c₁ || c₂) overflow)
add_with_carry_in a b carry_in false =
    let a' = bit_and a 0xffff_ffff in
    let b' = bit_and b 0xffff_ffff in
    let wide = a' + b' + carry_in in
    let s = bit_and wide 0xffff_ffff in
    let carry = bit_and (wide >>> 32) 1 == 1 in
    let overflow = bit_and (bit_and (bit_xor a' s) (bit_xor b' s) >>> 31) 1 == 1 in
    (s, flags_from s 32 carry overflow)

unfoldable pub add_with_carry : ℕ → ℕ → Bool → Bool → ℕ × Flags
add_with_carry a b sub sf =
    if sub then add_with_carry_in a (not64 b) 1 sf else add_with_carry_in a b 0 sf

-- The `match cond >> 1` of `eval_cond`.
pub base_cond : ℕ → Flags → Bool
base_cond k f =
    if k == 0
    then f.z
    else if k == 1
    then f.c
    else if k == 2
    then f.n
    else if k == 3
    then f.vf
    else if k == 4
    then f.c && not f.z
    else if k == 5
    then same f.n f.vf
    else if k == 6
    then not f.z && same f.n f.vf
    else true

unfoldable pub eval_cond : ℕ → Flags → Bool
unfolding base_cond
eval_cond cond f =
    let base = base_cond (cond >>> 1) f in
    if (bit_and cond 1 == 1) && (cond != 0b1111) then not base else base

abbrev pub width_mask : Bool → ℕ
width_mask sf = if sf then 2 ^ 64 - 1 else 0xffff_ffff

-- `datasize`
abbrev pub datasize : Bool → ℕ
datasize sf = if sf then 64 else 32

unfoldable pub read : CpuState → ℕ → Bool → Bool → Option ℕ
read cpu idx sf sp_ctx = if sf then read_gpr cpu idx sp_ctx else read_gpr_w cpu idx sp_ctx

unfoldable pub write : CpuState → ℕ → Bool → ℕ → Bool → Option CpuState
write cpu idx sf val sp = if sf then write_gpr cpu idx sp val else write_gpr_w cpu idx sp val
