-- ===== src/Decoder/DpReg.antt =====
-- crates/decoder/src/dp_reg.rs and its classes: data processing on registers.
use v.Base.{ℕ, bit_and, Bool, true, false, not, ◌&&◌, ◌||◌, same}
use v.Base.{◌==◌, ◌!=◌, leb, ltb, if◌then◌else◌}
use v.Decoder.Insn.{Insn, ShiftType}
use v.Decoder.Fields.{sf, field}

-- The shift kind of a 2-bit field.
unfoldable pub shift_of : ℕ → ShiftType
shift_of k =
    if k == 0
    then ShiftType.lsl
    else if k == 1
    then ShiftType.lsr
    else if k == 2
    then ShiftType.asr
    else ShiftType.ror

unfoldable pub add_sub_shifted_reg : ℕ → Insn
unfolding shift_of
add_sub_shifted_reg word =
    let amount = field word 10 6 in
    if field word 22 2 == 3
    then Insn.unsupported word
    else if not (sf word) && leb 32 amount
    then Insn.unsupported word
    else Insn.add_sub_shifted_reg (sf word) (field word 30 1 == 1) (field word 29 1 == 1)
        (shift_of (field word 22 2)) amount (field word 16 5) (field word 5 5) (field word 0 5)

unfoldable pub add_sub_ext_reg : ℕ → Insn
add_sub_ext_reg word =
    let imm3 = field word 10 3 in
    if ltb 4 imm3
    then Insn.unsupported word
    else Insn.add_sub_ext_reg (sf word) (field word 30 1 == 1) (field word 29 1 == 1)
        (field word 13 3) imm3 (field word 16 5) (field word 5 5) (field word 0 5)

unfoldable pub add_sub_carry : ℕ → Insn
add_sub_carry word =
    if field word 10 6 != 0
    then Insn.unsupported word
    else Insn.add_sub_carry (sf word) (field word 30 1 == 1) (field word 29 1 == 1)
        (field word 16 5) (field word 5 5) (field word 0 5)

-- The last arm of the source's `match` on the shift field is unreachable: the field has 2 bits.
unfoldable pub logical_reg : ℕ → Insn
unfolding shift_of
logical_reg word =
    let amount = field word 10 6 in
    if not (sf word) && leb 32 amount
    then Insn.unsupported word
    else Insn.logical_shifted_reg (sf word) (field word 29 2) (field word 21 1 == 1)
        (shift_of (field word 22 2)) amount (field word 16 5) (field word 5 5) (field word 0 5)

unfoldable pub cond_compare : ℕ → Insn
cond_compare word =
    if field word 29 1 != 1 || field word 10 1 != 0 || field word 4 1 != 0
    then Insn.unsupported word
    else Insn.cond_compare (sf word) (field word 30 1 == 1) (field word 11 1 == 1) (field word 16 5)
        (field word 16 5) (field word 12 4) (field word 0 4) (field word 5 5)

unfoldable pub cond_select : ℕ → Insn
cond_select word =
    if field word 11 1 != 0
    then Insn.unsupported word
    else Insn.cond_select (sf word) (field word 30 1 == 1) (field word 10 1 == 1) (field word 12 4)
        (field word 16 5) (field word 5 5) (field word 0 5)

unfoldable pub data_proc_1src : ℕ → Insn
data_proc_1src word =
    let opcode = field word 10 6 in
    if field word 16 5 != 0
    then Insn.unsupported word
    else if ltb 5 opcode || opcode == 3 && not (sf word)
    then Insn.unsupported word
    else Insn.data_proc_1src (sf word) opcode (field word 5 5) (field word 0 5)

-- The opcodes of `ok`: divisions and shifts, and the CRC forms at their width.
unfoldable pub is_2src : ℕ → Bool → Bool
is_2src opcode sf_bit =
    if opcode == 2 || opcode == 3 || opcode == 8 || opcode == 9 || opcode == 10 || opcode == 11
    then true
    else if leb 0x10 opcode && leb opcode 0x17
    then same sf_bit (bit_and opcode 3 == 3)
    else false

unfoldable pub data_proc_2src : ℕ → Insn
unfolding is_2src
data_proc_2src word =
    let opcode = field word 10 6 in
    if not (is_2src opcode (sf word))
    then Insn.unsupported word
    else Insn.data_proc_2src (sf word) opcode (field word 16 5) (field word 5 5) (field word 0 5)

unfoldable pub is_3src : ℕ → Bool → Bool → Bool
is_3src op31 sf_bit o0 =
    if op31 == 0
    then true
    else if op31 == 1 || op31 == 5
    then sf_bit
    else if op31 == 2 || op31 == 6
    then sf_bit && not o0
    else false

unfoldable pub data_proc_3src : ℕ → Insn
unfolding is_3src
data_proc_3src word =
    let op31 = field word 21 3 in
    let o0 = field word 15 1 == 1 in
    if field word 29 2 != 0
    then Insn.unsupported word
    else if not (is_3src op31 (sf word) o0)
    then Insn.unsupported word
    else Insn.data_proc_3src (sf word) op31 o0 (field word 16 5) (field word 10 5) (field word 5 5)
        (field word 0 5)

unfoldable pub decode : ℕ → Insn
decode word =
    let family = field word 24 5 in
    let class = field word 21 3 in
    if family == 0b01010
    then logical_reg word
    else if family == 0b01011
    then (if field word 21 1 == 0 then add_sub_shifted_reg word else add_sub_ext_reg word)
    else if family == 0b11011
    then data_proc_3src word
    else if family == 0b11010
    then (if class == 0
        then add_sub_carry word
        else if class == 2
        then cond_compare word
        else if class == 4
        then cond_select word
        else if class == 6
        then (if field word 30 1 == 1 then data_proc_1src word else data_proc_2src word)
        else Insn.unsupported word)
    else Insn.unsupported word
