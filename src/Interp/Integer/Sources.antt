-- ===== src/Interp/Integer/Sources.antt =====
-- crates/interp/src/{data_proc_1src,data_proc_2src,data_proc_3src}.rs.
use v.Base.{ℕ, zero, suc, ◌+◌, ◌-◌, ◌*◌, ◌/◌, ◌%◌, ◌^◌, ◌<<<◌, ◌>>>◌, u32, u64, wrapping_add}
use v.Base.{wrapping_sub}
use v.Base.{sign_extend, asr, rotate_right, bit_and, bit_xor, Bool, true, false, same, ◌&&◌}
use v.Base.{none, some, leb, ltb, ◌==◌, ◌!=◌, if◌then◌else◌, ◌>>=◌}
use v.Cpu.State.{CpuState}
use v.Interp.Alu.{datasize, read}
use v.Interp.Integer.{Outcome, finish}

-- The bytes of `src` below `j`, placed as the loops of `rev_groups` place them: byte `j` is
-- written when its group starts below `bytes`.
unfoldable pub rev_from : ℕ → ℕ → ℕ → ℕ → ℕ
rev_from zero val bytes g = 0
rev_from (suc j) val bytes g =
    let base = j / g * g in
    let from = base + (g - 1 - j % g) in
    let byte = if ltb base bytes then val / 2 ^ (8 * from) % 256 else 0 in
    rev_from j val bytes g + byte * 2 ^ (8 * j)

unfoldable pub rev_groups : ℕ → ℕ → ℕ → ℕ
unfolding rev_from
rev_groups val ds group_bytes = rev_from 8 val (ds / 8) group_bytes

-- `reverse_bits` of a word of `w` bits, and its bits below `i`.
unfoldable pub reverse_bits : ℕ → ℕ → ℕ → ℕ
reverse_bits w zero x = 0
reverse_bits w (suc i) x = reverse_bits w i x + x / 2 ^ i % 2 * 2 ^ (w - 1 - i)

-- `leading_zeros` of the bits below `i`
unfoldable pub leading_zeros : ℕ → ℕ → ℕ
leading_zeros zero x = 0
leading_zeros (suc i) x = if x / 2 ^ i % 2 == 1 then 0 else suc (leading_zeros i x)

-- The loop of `cls`.
unfoldable pub cls_from : ℕ → ℕ → ℕ → ℕ
cls_from zero val sign = 0
cls_from (suc i) val sign = if bit_and (val >>> i) 1 == sign then suc (cls_from i val sign) else 0

unfoldable pub cls : ℕ → ℕ → ℕ
unfolding cls_from
cls val ds = cls_from (ds - 1) val (bit_and (val >>> (ds - 1)) 1)

unfoldable pub data_proc_1src : CpuState → Bool → ℕ → ℕ → ℕ → Outcome
data_proc_1src cpu sf opcode rn rd =
    let ds = datasize sf in
    do
      x ← read cpu rn sf false
      result ←
          if opcode == 0
          then some (if sf then reverse_bits 64 64 x else reverse_bits 32 32 (u32 x))
          else if opcode == 1
          then some (rev_groups x ds 2)
          else if opcode == 2
          then some (rev_groups x ds 4)
          else if opcode == 3
          then some (rev_groups x ds 8)
          else if opcode == 4
          then some (if sf then leading_zeros 64 x else leading_zeros 32 (u32 x))
          else if opcode == 5
          then some (cls x ds)
          else none
      finish cpu rd sf result false

unfoldable pub crc_bits : ℕ → ℕ → ℕ → ℕ
crc_bits zero poly acc = acc
crc_bits (suc k) poly acc =
    let shifted = if bit_and acc 1 != 0 then bit_xor (acc >>> 1) poly else acc >>> 1 in
    crc_bits k poly shifted

-- The outer loop of `crc`, with `left` bytes of `val` to go from byte `i` on.
unfoldable pub crc_from : ℕ → ℕ → ℕ → ℕ → ℕ → ℕ
unfolding crc_bits
crc_from zero i val poly acc = acc
crc_from (suc left) i val poly acc =
    crc_from left (i + 1) val poly (crc_bits 8 poly (bit_xor acc (bit_and (val >>> (i * 8)) 0xff)))

unfoldable pub crc : ℕ → ℕ → ℕ → ℕ → ℕ
unfolding crc_from
crc acc val size poly = crc_from size 0 val poly acc

unfoldable pub udiv : ℕ → ℕ → Bool → ℕ
udiv n m true = if m == 0 then 0 else n / m
udiv n m false = if u32 m == 0 then 0 else u32 n / u32 m

-- The absolute value of a two's-complement word.
abbrev pub magnitude : ℕ → ℕ → ℕ
magnitude w x = if ltb x (2 ^ (w - 1)) then x else 2 ^ w - x

-- `sdiv` at `w` bits: the quotient of the absolute values, with its sign.
unfoldable pub sdiv_at : ℕ → ℕ → ℕ → ℕ
sdiv_at w n m =
    let q = magnitude w n / magnitude w m in
    if m == 0
    then 0
    else if (n == 2 ^ (w - 1)) && (m == 2 ^ w - 1)
    then 2 ^ (w - 1)
    else if same (ltb n (2 ^ (w - 1))) (ltb m (2 ^ (w - 1)))
    then q
    else (2 ^ w - q) % 2 ^ w

unfoldable pub sdiv : ℕ → ℕ → Bool → ℕ
unfolding sdiv_at
sdiv n m true = sdiv_at 64 n m
sdiv n m false = sdiv_at 32 (u32 n) (u32 m)

-- `Shift`
pub data Shift : Type 0 where
  lsl : Shift
  lsr : Shift
  asr_by : Shift
  ror : Shift

-- The `match kind` of `shift_var`, at `w` bits.
unfoldable pub shift_at : ℕ → ℕ → ℕ → Shift → ℕ
shift_at w n amount lsl = (n <<< amount) % 2 ^ w
shift_at w n amount lsr = n >>> amount
shift_at w n amount asr_by = asr w n amount
shift_at w n amount ror = rotate_right w n amount

unfoldable pub shift_var : ℕ → ℕ → ℕ → Shift → Bool → ℕ
unfolding shift_at
shift_var n m ds kind true = shift_at 64 n (m % ds) kind
shift_var n m ds kind false = shift_at 32 (u32 n) (m % ds) kind

unfoldable pub data_proc_2src : CpuState → Bool → ℕ → ℕ → ℕ → ℕ → Outcome
data_proc_2src cpu sf opcode rm rn rd =
    let ds = datasize sf in
    do
      n ← read cpu rn sf false
      m ← read cpu rm sf false
      let size = 1 <<< bit_and opcode 3
      let poly = if bit_and opcode 4 == 0 then 0xEDB8_8320 else 0x82F6_3B78
      let summed = finish cpu rd false (crc (u32 (bit_and n 0xffff_ffff)) m size poly) false
      let computed = do
        result ←
            if opcode == 2
            then some (udiv n m sf)
            else if opcode == 3
            then some (sdiv n m sf)
            else if opcode == 8
            then some (shift_var n m ds lsl sf)
            else if opcode == 9
            then some (shift_var n m ds lsr sf)
            else if opcode == 10
            then some (shift_var n m ds asr_by sf)
            else if opcode == 11
            then some (shift_var n m ds ror sf)
            else none
        finish cpu rd sf result false
      if leb 0x10 opcode && leb opcode 0x17 then summed else computed

-- `a - prod` or `a + prod`
abbrev pub accumulate : ℕ → ℕ → Bool → ℕ
accumulate a prod o0 = if o0 then wrapping_sub a prod else wrapping_add a prod

-- `i128::from(x as i64)` as a pattern of 128 bits
abbrev pub to_i128 : ℕ → ℕ
to_i128 x = if ltb x (2 ^ 63) then x else x + 2 ^ 128 - 2 ^ 64

unfoldable pub data_proc_3src : CpuState → Bool → ℕ → Bool → ℕ → ℕ → ℕ → ℕ → Outcome
data_proc_3src cpu sf op31 o0 rm ra rn rd =
    let madd = do
      n ← read cpu rn sf false
      m ← read cpu rm sf false
      a ← read cpu ra sf false
      some (accumulate a (u64 (n * m)) o0)
    in let smaddl = do
      n ← read cpu rn false false
      m ← read cpu rm false false
      a ← read cpu ra true false
      some (accumulate a (u64 (sign_extend 32 (u32 n) * sign_extend 32 (u32 m))) o0)
      in let umaddl = do
        n ← read cpu rn false false
        m ← read cpu rm false false
        a ← read cpu ra true false
        some (accumulate a (u64 (u32 n * u32 m)) o0)
        in let smulh = do
          n ← read cpu rn true false
          m ← read cpu rm true false
          some (u64 (to_i128 n * to_i128 m % 2 ^ 128 / 2 ^ 64))
          in let umulh = do
            n ← read cpu rn true false
            m ← read cpu rm true false
            some (u64 (n * m / 2 ^ 64))
            in do
              result ←
                  if op31 == 0b000
                  then madd
                  else if op31 == 0b001
                  then smaddl
                  else if op31 == 0b101
                  then umaddl
                  else if op31 == 0b010
                  then smulh
                  else if op31 == 0b110
                  then umulh
                  else none
              finish cpu rd sf result false
