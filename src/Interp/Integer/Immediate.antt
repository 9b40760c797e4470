-- ===== src/Interp/Integer/Immediate.antt =====
-- crates/interp/src/{move_wide,add_sub_imm,logical_imm,bitfield,extract,pc_rel}.rs.
use v.Base.{ℕ, ◌-◌, ◌*◌, ◌%◌, ◌^◌, ◌<<<◌, ◌>>>◌, not64, u32, u64, wrapping_add, rotate_right}
use v.Base.{bit_and, bit_or, bit_xor, Bool, true, false, not, Option, none, some, ltb, ◌==◌, ◌!=◌}
use v.Base.{if◌then◌else◌, ◌>>=◌, ◌>>◌, check}
use v.Cpu.Flags.{Flags}
use v.Cpu.State.{CpuState, read_gpr}
use v.Interp.Alu.{add_with_carry, width_mask, datasize, read}
use v.Interp.Integer.{Outcome, finish}

unfoldable pub move_wide : CpuState → Bool → ℕ → ℕ → ℕ → ℕ → Outcome
move_wide cpu sf opc hw imm16 rd =
    let shift = hw * 16 in
    let imm = u64 (imm16 <<< shift) in
    let keep = do
      cur ← read_gpr cpu rd false
      some (bit_or (bit_and cur (not64 (u64 (0xffff <<< shift)))) imm)
    in let result =
        if opc == 2
        then some imm
        else if opc == 0
        then some (not64 imm)
        else if opc == 3
        then keep
        else none in
      do check (ltb shift 64); r ← result; finish cpu rd sf r false

unfoldable pub add_sub_imm : CpuState → Bool → Bool → Bool → Bool → ℕ → ℕ → ℕ → Outcome
add_sub_imm cpu sf sub set_flags shift12 imm12 rn rd =
    let imm = imm12 <<< (if shift12 then 12 else 0) in
    do
      a ← read cpu rn sf true
      let (result, flags) = add_with_carry a imm sub sf
      let flagged = if set_flags then record cpu { flags = flags } else cpu
      finish flagged rd sf result (not set_flags)

-- The `match opc` of the logical executors.
unfoldable pub logical : ℕ → ℕ → ℕ → Option ℕ
logical opc a b =
    if opc == 0
    then some (bit_and a b)
    else if opc == 3
    then some (bit_and a b)
    else if opc == 1
    then some (bit_or a b)
    else if opc == 2
    then some (bit_xor a b)
    else none

-- The flags of ANDS and BICS.
unfoldable pub logical_flags : ℕ → Bool → Flags
logical_flags result sf =
    let r = bit_and result (width_mask sf) in
    record { n = bit_and (r >>> (if sf then 63 else 31)) 1 == 1; z = r == 0; c = false; vf = false }

unfoldable pub logical_imm : CpuState → Bool → ℕ → ℕ → ℕ → ℕ → Outcome
unfolding logical
logical_imm cpu sf opc imm rn rd = do
  a ← read cpu rn sf false
  result ← logical opc a imm
  let flagged = if opc == 3 then record cpu { flags = logical_flags result sf } else cpu
  finish flagged rd sf result (opc != 3)

-- `ror`
unfoldable pub ror : ℕ → ℕ → ℕ → ℕ
ror val r ds = if ds == 64 then rotate_right 64 val (r % 64) else rotate_right 32 (u32 val) (r % 32)

unfoldable pub bitfield : CpuState → Bool → ℕ → ℕ → ℕ → ℕ → ℕ → ℕ → ℕ → Outcome
unfolding ror
bitfield cpu sf opc wmask tmask immr imms rn rd =
    let ds = datasize sf in
    let dmask = if ds == 64 then 2 ^ 64 - 1 else 0xffff_ffff in
    let wmask' = bit_and wmask dmask in
    let tmask' = bit_and tmask dmask in
    do
      src ← read cpu rn sf false
      let rotated = bit_and (ror src immr ds) wmask'
      dst ← read cpu rd sf false
      let bot = if opc == 1 then bit_or (bit_and dst (not64 wmask')) rotated else rotated
      check (ltb imms 64)
      let top =
          if opc == 0
          then (if bit_and (src >>> imms) 1 == 1 then dmask else 0)
          else if opc == 1
          then dst
          else 0
      finish cpu rd sf (bit_or (bit_and top (not64 tmask')) (bit_and bot tmask')) false

-- The amount of a shift stays below the width, or the source panics.
unfoldable pub extract : CpuState → Bool → ℕ → ℕ → ℕ → ℕ → Outcome
extract cpu sf rm rn lsb rd = do
  m ← read cpu rm sf false
  n ← read cpu rn sf false
  check (ltb lsb (datasize sf))
  let wide = if lsb == 0 then m else bit_or (m >>> lsb) (u64 (n <<< (64 - lsb)))
  let narrow = if lsb == 0 then u32 m else bit_or (u32 m >>> lsb) (u32 (u32 n <<< (32 - lsb)))
  finish cpu rd sf (if sf then wide else narrow) false

unfoldable pub pc_rel : CpuState → Bool → ℕ → ℕ → ℕ → Outcome
pc_rel cpu page imm rd pc =
    let base = if page then bit_and pc (not64 0xfff) else pc in
    finish cpu rd true (wrapping_add base imm) false
