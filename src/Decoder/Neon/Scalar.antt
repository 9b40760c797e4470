-- ===== src/Decoder/Neon/Scalar.antt =====
-- crates/decoder/src/neon/scalar.rs: the scalar forms of the vector instructions.
use v.Base.{ℕ, ◌+◌, ◌*◌, ◌<<<◌, ◌>>>◌, bit_and, bit_or}
use v.Base.{Bool, true, false, not, ◌&&◌, ◌||◌, [], ◌∷◌, none, some}
use v.Base.{◌==◌, ◌!=◌, leb, if◌then◌else◌}
use v.Decoder.Insn.{Insn}
use v.Decoder.Fields.{field}
use v.Decoder.Neon.Matches.{matches, one_of, fp_opcode}
use v.Decoder.Neon.Elements.{is_fp_key, indexed_operand}
use v.Decoder.Neon.Misc.{is_fp_block, sha_three_reg, sha_two_reg}

unfoldable pub is_three_same : Bool → ℕ → ℕ → Bool
is_three_same u size opcode =
    if leb 0x18 opcode
    then one_of (fp_opcode opcode size u)
        (0x1b ∷ 0x1f ∷ 0x3f ∷ 0x5d ∷ 0x7d ∷ 0x1c ∷ 0x5c ∷ 0x7c ∷ 0x7a ∷ [])
    else if one_of opcode (0x1 ∷ 0x5 ∷ 0x9 ∷ 0xb ∷ [])
    then true
    else if one_of opcode (0x8 ∷ 0xa ∷ 0x6 ∷ 0x7 ∷ 0x11 ∷ 0x10 ∷ [])
    then size == 3
    else if opcode == 0x16
    then size == 1 || size == 2
    else false

unfoldable pub three_same : ℕ → Insn
unfolding is_three_same
three_same word =
    let u = field word 29 1 == 1 in
    let size = field word 22 2 in
    let opcode = field word 11 5 in
    if not (is_three_same u size opcode)
    then Insn.unsupported word
    else Insn.simd_scalar_three_same u size opcode (field word 16 5) (field word 5 5)
        (field word 0 5)

unfoldable pub is_two_reg_misc : Bool → ℕ → ℕ → Bool
is_two_reg_misc u size opcode =
    if is_fp_block opcode
    then one_of (fp_opcode opcode size u) (0x2c ∷ 0x2d ∷ 0x2e ∷ 0x6c ∷ 0x6d ∷ 0x1d ∷ 0x5d ∷ [])
      || one_of (fp_opcode opcode size u)
          (0x1a ∷ 0x1b ∷ 0x3a ∷ 0x3b ∷ 0x5a ∷ 0x5b ∷ 0x7a ∷ 0x7b ∷ 0x1c ∷ 0x5c ∷ [])
    else if opcode == 0x3 || opcode == 0x7
    then true
    else if one_of opcode (0x8 ∷ 0x9 ∷ 0xb ∷ [])
    then size == 3
    else if opcode == 0xa
    then not u && size == 3
    else if opcode == 0x12
    then u && leb size 2
    else if opcode == 0x14
    then leb size 2
    else false

unfoldable pub two_reg_misc : ℕ → Insn
unfolding is_two_reg_misc
two_reg_misc word =
    let u = field word 29 1 == 1 in
    let size = field word 22 2 in
    let opcode = field word 12 5 in
    if not (is_two_reg_misc u size opcode)
    then Insn.unsupported word
    else Insn.simd_scalar_two_reg_misc u size opcode (field word 5 5) (field word 0 5)

unfoldable pub pairwise : ℕ → Insn
pairwise word =
    let u = field word 29 1 == 1 in
    let size = field word 22 2 in
    let opcode = field word 12 5 in
    let full = bit_or opcode ((size >>> 1) <<< 5) in
    let valid =
      if not u
      then opcode == 0x1b && size == 3
      else one_of full (0xc ∷ 0xd ∷ 0xf ∷ 0x2c ∷ 0x2f ∷ []) in
    if not valid
    then Insn.unsupported word
    else Insn.simd_scalar_pairwise u size opcode (field word 5 5) (field word 0 5)

unfoldable pub three_diff : ℕ → Insn
three_diff word =
    let u = field word 29 1 == 1 in
    let size = field word 22 2 in
    let opcode = field word 12 4 in
    let valid = not u && one_of opcode (0x9 ∷ 0xb ∷ 0xd ∷ []) && (size == 1 || size == 2) in
    if not valid
    then Insn.unsupported word
    else Insn.simd_scalar_three_diff size opcode (field word 16 5) (field word 5 5) (field word 0 5)

unfoldable pub copy : ℕ → Insn
copy word =
    let imm5 = field word 16 5 in
    if field word 29 1 != 0 || field word 11 4 != 0 || bit_and imm5 0xf == 0
    then Insn.unsupported word
    else Insn.simd_scalar_copy imm5 (field word 5 5) (field word 0 5)

-- The operand is that of the vector form with a whole register.
unfoldable pub indexed : ℕ → Insn
unfolding indexed_operand
indexed word =
    let u = field word 29 1 in
    let size = field word 22 2 in
    let opcode = field word 12 4 in
    let key = 16 * u + opcode in
    let allocated =
      one_of key (0x03 ∷ 0x07 ∷ 0x0b ∷ 0x0c ∷ 0x0d ∷ 0x01 ∷ 0x05 ∷ 0x09 ∷ 0x19 ∷ []) in
    let size_ok = if is_fp_key key then size == 2 || size == 3 else size == 1 || size == 2 in
    if not allocated || not size_ok
    then Insn.unsupported word
    else elim (indexed_operand word size true) [
      | none ↦ Insn.unsupported word
      | some (index, rm) ↦
          Insn.simd_scalar_indexed (u == 1) size opcode index rm (field word 5 5) (field word 0 5)
    ]

unfoldable pub is_shift_imm : Bool → ℕ → ℕ → Bool
is_shift_imm u immh opcode =
    let d_only = bit_and immh 0b1000 != 0 in
    let size_le2 = bit_and immh 0b1000 == 0 in
    if one_of opcode (0b00000 ∷ 0b00010 ∷ 0b00100 ∷ 0b00110 ∷ [])
    then d_only
    else if opcode == 0b01000
    then u && d_only
    else if opcode == 0b01010
    then d_only
    else if opcode == 0b01100
    then u
    else if opcode == 0b01110
    then true
    else if opcode == 0b10000 || opcode == 0b10001
    then u && size_le2
    else if opcode == 0b10010 || opcode == 0b10011
    then size_le2
    else if opcode == 0b11100 || opcode == 0b11111
    then bit_and immh 0b1100 != 0
    else false

unfoldable pub shift_imm : ℕ → Insn
unfolding is_shift_imm
shift_imm word =
    let u = field word 29 1 == 1 in
    let immh = field word 19 4 in
    let opcode = field word 11 5 in
    if immh == 0
    then Insn.unsupported word
    else if not (is_shift_imm u immh opcode)
    then Insn.unsupported word
    else Insn.simd_scalar_shift_imm u immh (field word 16 3) opcode (field word 5 5)
        (field word 0 5)

unfoldable pub decode : ℕ → Insn
unfolding matches three_same two_reg_misc pairwise three_diff copy indexed shift_imm
decode word =
    if matches word 0xff20_8c00 0x5e00_0000
    then sha_three_reg word
    else if matches word 0xff3e_0c00 0x5e28_0800
    then sha_two_reg word
    else if matches word 0xdf20_0c00 0x5e20_0000
    then three_diff word
    else if matches word 0xdf20_0400 0x5e20_0400
    then three_same word
    else if matches word 0xdf3e_0c00 0x5e20_0800
    then two_reg_misc word
    else if matches word 0xdf3e_0c00 0x5e30_0800
    then pairwise word
    else if matches word 0xdfe0_8400 0x5e00_0400
    then copy word
    else if matches word 0xdf00_0400 0x5f00_0000
    then indexed word
    else if matches word 0xdf80_0400 0x5f00_0400
    then shift_imm word
    else Insn.unsupported word
