-- ===== src/Decoder/Fp.antt =====
-- crates/decoder/src/fp.rs and fp/: scalar floating point.
use v.Base.{ℕ, ◌>>>◌, bit_and, Bool, true, false, not, ◌&&◌, ◌||◌, ◌==◌, ◌!=◌, leb, ltb}
use v.Base.{if◌then◌else◌}
use v.Decoder.Insn.{Insn}
use v.Decoder.Fields.{field}

unfoldable pub ftype_ok : ℕ → Bool
ftype_ok ftype = ftype == 0b00 || ftype == 0b01

unfoldable pub ccmp : ℕ → Insn
ccmp word =
    let ftype = field word 22 2 in
    if field word 21 1 != 1 || not (ftype_ok ftype)
    then Insn.unsupported word
    else Insn.fp_cond_compare ftype (field word 16 5) (field word 5 5) (field word 12 4)
        (field word 0 4) (field word 4 1 == 1)

unfoldable pub compare : ℕ → Insn
compare word =
    let ftype = field word 22 2 in
    let opcode2 = field word 0 5 in
    if not (ftype_ok ftype) || field word 14 2 != 0 || bit_and opcode2 0b00111 != 0
    then Insn.unsupported word
    else Insn.fp_compare ftype (field word 16 5) (field word 5 5) (bit_and (opcode2 >>> 3) 1 == 1)
        (bit_and (opcode2 >>> 4) 1 == 1)

unfoldable pub csel : ℕ → Insn
csel word =
    let ftype = field word 22 2 in
    if not (ftype_ok ftype)
    then Insn.unsupported word
    else Insn.fp_cond_select ftype (field word 12 4) (field word 16 5) (field word 5 5)
        (field word 0 5)

-- The conversions between floating point and integer that are allocated, and the moves at their
-- width.
unfoldable pub is_cvt : Bool → ℕ → ℕ → ℕ → Bool
is_cvt sf ftype rmode opcode =
    if rmode == 0 && (opcode == 0b010 || opcode == 0b011)
    then true
    else if opcode == 0b000 || opcode == 0b001
    then true
    else if rmode == 0 && (opcode == 0b100 || opcode == 0b101)
    then true
    else if rmode == 0 && (opcode == 0b110 || opcode == 0b111)
    then not sf && ftype == 0b00 || sf && ftype == 0b01
    else false

unfoldable pub cvt : ℕ → Insn
unfolding is_cvt
cvt word =
    let sf = field word 31 1 == 1 in
    let ftype = field word 22 2 in
    let rmode = field word 19 2 in
    let opcode = field word 16 3 in
    let made = Insn.fp_cvt_int sf ftype rmode opcode (field word 5 5) (field word 0 5) in
    if sf && ftype == 0b10 && rmode == 0b01 && (opcode == 0b110 || opcode == 0b111)
    then made
    else if not (ftype_ok ftype)
    then Insn.unsupported word
    else if not (is_cvt sf ftype rmode opcode)
    then Insn.unsupported word
    else made

unfoldable pub is_dp1 : ℕ → ℕ → Bool
is_dp1 ftype opcode =
    if leb opcode 3
    then ftype_ok ftype
    else if opcode == 4
    then ftype == 0b01
    else if opcode == 5
    then ftype == 0b00
    else if leb 0x8 opcode && leb opcode 0xc || opcode == 0xe || opcode == 0xf
    then ftype_ok ftype
    else false

unfoldable pub dp1 : ℕ → Insn
unfolding is_dp1
dp1 word =
    let ftype = field word 22 2 in
    let opcode = field word 15 6 in
    if not (is_dp1 ftype opcode)
    then Insn.unsupported word
    else Insn.fp_data_proc1 ftype opcode (field word 5 5) (field word 0 5)

unfoldable pub dp2 : ℕ → Insn
dp2 word =
    let ftype = field word 22 2 in
    let opcode = field word 12 4 in
    if not (ftype_ok ftype) || ltb 0b1000 opcode
    then Insn.unsupported word
    else Insn.fp_data_proc2 ftype opcode (field word 16 5) (field word 5 5) (field word 0 5)

unfoldable pub dp3 : ℕ → Insn
dp3 word =
    let ftype = field word 22 2 in
    if not (ftype_ok ftype)
    then Insn.unsupported word
    else Insn.fp_data_proc3 ftype (field word 21 1 == 1) (field word 15 1 == 1) (field word 16 5)
        (field word 10 5) (field word 5 5) (field word 0 5)

unfoldable pub fixed : ℕ → Insn
fixed word =
    let sf = field word 31 1 == 1 in
    let ftype = field word 22 2 in
    let rmode = field word 19 2 in
    let opcode = field word 16 3 in
    let scale = field word 10 6 in
    let valid =
      rmode == 0b00 && (opcode == 0b010 || opcode == 0b011)
      || rmode == 0b11 && (opcode == 0b000 || opcode == 0b001) in
    if not (ftype_ok ftype)
    then Insn.unsupported word
    else if not valid || not sf && ltb scale 32
    then Insn.unsupported word
    else Insn.fp_cvt_fixed sf ftype opcode scale (field word 5 5) (field word 0 5)

unfoldable pub imm : ℕ → Insn
imm word =
    let ftype = field word 22 2 in
    if not (ftype_ok ftype) || field word 5 5 != 0
    then Insn.unsupported word
    else Insn.fp_imm ftype (field word 13 8) (field word 0 5)

unfoldable pub decode : ℕ → Insn
unfolding ccmp compare csel cvt dp1 dp2 dp3 fixed imm
decode word =
    if field word 24 5 == 0b11111
    then dp3 word
    else if field word 24 5 != 0b11110
    then Insn.unsupported word
    else if field word 21 1 == 0
    then fixed word
    else if field word 10 2 == 0b00
    then (if field word 10 6 == 0b000000
        then cvt word
        else if field word 10 5 == 0b10000
        then dp1 word
        else if field word 10 4 == 0b1000
        then compare word
        else if field word 10 3 == 0b100
        then imm word
        else Insn.unsupported word)
    else if field word 10 2 == 0b10
    then dp2 word
    else if field word 10 2 == 0b11
    then csel word
    else ccmp word
