-- ===== src/Interp/Integer/Register.antt =====
-- crates/interp/src/{add_sub_shifted_reg,add_sub_ext_reg,add_sub_carry,logical_reg,cond_compare,
-- cond_select}.rs.
use v.Base.{ℕ, ◌-◌, ◌^◌, ◌<<<◌, not64, u64, wrapping_add, sign_extend, bit_of}
use v.Base.{bit_and, Bool, true, false, not, Option, none, some, leb, ltb, ◌==◌, ◌!=◌}
use v.Base.{if◌then◌else◌, ◌>>=◌, ◌>>◌, check}
use v.Cpu.State.{CpuState, read_gpr}
use v.Decoder.Insn.{ShiftType}
use v.Interp.Alu.{add_with_carry, add_with_carry_in, apply_shift, eval_cond, width_mask, read}
use v.Interp.Integer.{Outcome, finish}
use v.Interp.Integer.Immediate.{logical, logical_flags}

unfoldable pub add_sub_shifted_reg :
    CpuState → Bool → Bool → Bool → ShiftType → ℕ → ℕ → ℕ → ℕ → Outcome
add_sub_shifted_reg cpu sf sub set_flags shift amount rm rn rd = do
  a ← read cpu rn sf false
  m ← read cpu rm sf false
  let (result, flags) = add_with_carry a (apply_shift m shift amount sf) sub sf
  let flagged = if set_flags then record cpu { flags = flags } else cpu
  finish flagged rd sf result false

-- The `match option` of `extend_reg`.
unfoldable pub extension : ℕ → ℕ × Bool
extension option =
    if option == 0
    then (8, false)
    else if option == 1
    then (16, false)
    else if option == 2
    then (32, false)
    else if option == 3
    then (64, false)
    else if option == 4
    then (8, true)
    else if option == 5
    then (16, true)
    else if option == 6
    then (32, true)
    else (64, true)

unfoldable pub extend_reg : CpuState → ℕ → ℕ → ℕ → Option ℕ
unfolding extension
extend_reg cpu rm option shift =
    let (bits, signed) = extension option in
    do
      w ← read_gpr cpu rm false
      let x = bit_and w (2 ^ bits - 1)
      let extracted = if leb 64 bits then w else if signed then sign_extend bits x else x
      check (ltb shift 64)
      some (u64 (extracted <<< shift))

unfoldable pub add_sub_ext_reg : CpuState → Bool → Bool → Bool → ℕ → ℕ → ℕ → ℕ → ℕ → Outcome
add_sub_ext_reg cpu sf sub set_flags option imm3 rm rn rd = do
  a ← read cpu rn sf true
  b ← extend_reg cpu rm option imm3
  let (result, flags) = add_with_carry a b sub sf
  let flagged = if set_flags then record cpu { flags = flags } else cpu
  finish flagged rd sf result (not set_flags)

unfoldable pub add_sub_carry : CpuState → Bool → Bool → Bool → ℕ → ℕ → ℕ → Outcome
add_sub_carry cpu sf sub set_flags rm rn rd = do
  a ← read cpu rn sf false
  b ← read cpu rm sf false
  let b_op = if sub then not64 b else b
  let (result, flags) = add_with_carry_in a b_op (bit_of cpu.flags.c) sf
  let flagged = if set_flags then record cpu { flags = flags } else cpu
  finish flagged rd sf result false

unfoldable pub logical_reg : CpuState → Bool → ℕ → Bool → ShiftType → ℕ → ℕ → ℕ → ℕ → Outcome
unfolding logical
logical_reg cpu sf opc negate shift amount rm rn rd = do
  a ← read cpu rn sf false
  m ← read cpu rm sf false
  let shifted = apply_shift m shift amount sf
  let b = if negate then bit_and (not64 shifted) (width_mask sf) else shifted
  result ← logical opc a b
  let flagged = if opc == 3 then record cpu { flags = logical_flags result sf } else cpu
  finish flagged rd sf result false

unfoldable pub cond_compare : CpuState → Bool → Bool → Bool → ℕ → ℕ → ℕ → ℕ → ℕ → Outcome
cond_compare cpu sf sub is_imm imm_y rm cond nzcv rn =
    let compared = do
      y ← if is_imm then some imm_y else read cpu rm sf false
      a ← read cpu rn sf false
      some (record cpu { flags = (add_with_carry a y sub sf).1 }, none)
    in if eval_cond cond cpu.flags
      then compared
      else some (
        record cpu {
          flags = record {
            n = bit_and nzcv 0b1000 != 0;
            z = bit_and nzcv 0b0100 != 0;
            c = bit_and nzcv 0b0010 != 0;
            vf = bit_and nzcv 0b0001 != 0;
          };
        },
        none,
      )

-- The `match (op, o2)` of `cond_select`; `wrapping_neg` is 0 - m.
unfoldable pub select_other : ℕ → ℕ → Bool → Bool → ℕ
select_other m mask false false = m
select_other m mask false true = bit_and (wrapping_add m 1) mask
select_other m mask true false = bit_and (not64 m) mask
select_other m mask true true = bit_and (u64 (2 ^ 64 - m)) mask

unfoldable pub cond_select : CpuState → Bool → Bool → Bool → ℕ → ℕ → ℕ → ℕ → Outcome
unfolding select_other
cond_select cpu sf op o2 cond rm rn rd =
    let other = do m ← read cpu rm sf false; some (select_other m (width_mask sf) op o2)
    in do
      result ← if eval_cond cond cpu.flags then read cpu rn sf false else other
      finish cpu rd sf result false
