-- ===== src/Decoder/Neon/Elements.antt =====
-- crates/decoder/src/neon/{copy,indexed,shift_imm,mod_imm}.rs.
use v.Base.{ℕ, ◌+◌, ◌*◌, ◌<<<◌, ◌>>>◌, bit_and, bit_or, u8}
use v.Base.{Bool, true, false, not, ◌&&◌, ◌||◌, [], ◌∷◌, Option, none, some}
use v.Base.{◌==◌, ◌!=◌, leb, if◌then◌else◌}
use v.Decoder.Insn.{Insn}
use v.Decoder.Fields.{field}
use v.Decoder.Neon.Matches.{one_of, not_d_or_q}

unfoldable pub size_index : ℕ → Option (ℕ × ℕ)
size_index imm5 =
    if bit_and imm5 1 != 0
    then some (0, imm5 >>> 1)
    else if bit_and imm5 2 != 0
    then some (1, imm5 >>> 2)
    else if bit_and imm5 4 != 0
    then some (2, imm5 >>> 3)
    else if bit_and imm5 8 != 0
    then some (3, imm5 >>> 4)
    else none

unfoldable pub dup_element : ℕ → Bool → Option (ℕ × ℕ) → Insn
dup_element word q none = Insn.unsupported word
dup_element word q (some (size, index)) =
    if size == 3 && not q
    then Insn.unsupported word
    else Insn.simd_dup_element q size index (field word 5 5) (field word 0 5)

unfoldable pub dup_general : ℕ → Bool → Option (ℕ × ℕ) → Insn
dup_general word q none = Insn.unsupported word
dup_general word q (some (size, index)) =
    if size == 3 && not q
    then Insn.unsupported word
    else Insn.simd_dup_general q size (field word 5 5) (field word 0 5)

unfoldable pub ins_general : ℕ → Option (ℕ × ℕ) → Insn
ins_general word none = Insn.unsupported word
ins_general word (some (size, index)) =
    Insn.simd_ins_general size index (field word 5 5) (field word 0 5)

unfoldable pub ins_element : ℕ → Option (ℕ × ℕ) → Insn
ins_element word none = Insn.unsupported word
ins_element word (some (size, dst)) =
    Insn.simd_ins_element size dst (field word 11 4 >>> size) (field word 5 5) (field word 0 5)

unfoldable pub mov_to_gpr : Bool → Bool → ℕ → Option (ℕ × ℕ) → Insn
mov_to_gpr signed q word none = Insn.unsupported word
mov_to_gpr signed q word (some (size, index)) =
    let valid =
      if signed
      then (if q then leb size 2 else leb size 1)
      else if q
      then size == 3
      else leb size 2 in
    if not valid
    then Insn.unsupported word
    else Insn.simd_mov_to_gpr signed q size index (field word 5 5) (field word 0 5)

unfoldable pub copy : ℕ → Insn
unfolding size_index dup_element dup_general ins_general ins_element mov_to_gpr
copy word =
    let q = field word 30 1 == 1 in
    let at = size_index (field word 16 5) in
    let imm4 = field word 11 4 in
    if field word 29 1 == 1
    then (if not q then Insn.unsupported word else ins_element word at)
    else if imm4 == 0b0000
    then dup_element word q at
    else if imm4 == 0b0001
    then dup_general word q at
    else if imm4 == 0b0011 && q
    then ins_general word at
    else if imm4 == 0b0101
    then mov_to_gpr true q word at
    else if imm4 == 0b0111
    then mov_to_gpr false q word at
    else Insn.unsupported word

abbrev pub is_fp_key : ℕ → Bool
is_fp_key key = one_of key (0x01 ∷ 0x05 ∷ 0x09 ∷ 0x19 ∷ [])

unfoldable pub is_indexed : ℕ → Bool
is_indexed key =
    one_of key (0x08 ∷ 0x10 ∷ 0x14 ∷ 0x02 ∷ 0x12 ∷ 0x06 ∷ 0x16 ∷ 0x0a ∷ 0x1a ∷ [])
    || one_of key (0x03 ∷ 0x07 ∷ 0x0b ∷ 0x0c ∷ 0x0d ∷ 0x0e ∷ 0x1e ∷ 0x1d ∷ 0x1f ∷ [])
    || is_fp_key key

-- The index of the element and the register that holds it, by element size.
unfoldable pub indexed_operand : ℕ → ℕ → Bool → Option (ℕ × ℕ)
indexed_operand word size q =
    let l = field word 21 1 in
    let m = field word 20 1 in
    let rm4 = field word 16 4 in
    let h = field word 11 1 in
    if size == 1
    then some (bit_or (bit_or (h <<< 2) (l <<< 1)) m, rm4)
    else if size == 2
    then some (bit_or (h <<< 1) l, bit_or rm4 (m <<< 4))
    else if l == 1 || not q
    then none
    else some (h, bit_or rm4 (m <<< 4))

unfoldable pub indexed : ℕ → Insn
unfolding is_indexed indexed_operand
indexed word =
    let q = field word 30 1 == 1 in
    let u = field word 29 1 in
    let size = field word 22 2 in
    let opcode = field word 12 4 in
    let key = 16 * u + opcode in
    let size_ok =
      if is_fp_key key
      then size == 2 || size == 3
      else if one_of key (0x0e ∷ 0x1e ∷ [])
      then size == 2
      else size == 1 || size == 2 in
    if not (is_indexed key) || not size_ok
    then Insn.unsupported word
    else elim (indexed_operand word size q) [
      | none ↦ Insn.unsupported word
      | some (index, rm) ↦
          Insn.simd_indexed q (u == 1) size opcode index rm (field word 5 5) (field word 0 5)
    ]

-- The element size: the highest set bit of `immh`.
unfoldable pub immh_size : ℕ → ℕ
immh_size immh =
    if bit_and immh 0b1000 != 0
    then 3
    else if bit_and immh 0b0100 != 0
    then 2
    else if bit_and immh 0b0010 != 0
    then 1
    else 0

unfoldable pub is_shift_imm : Bool → Bool → ℕ → ℕ → Bool
is_shift_imm q u size opcode =
    if one_of opcode (0b00000 ∷ 0b00010 ∷ 0b00100 ∷ 0b00110 ∷ 0b01010 ∷ 0b01110 ∷ [])
    then not_d_or_q size q
    else if opcode == 0b01000 || opcode == 0b01100
    then u && not_d_or_q size q
    else if one_of opcode (0b10000 ∷ 0b10001 ∷ 0b10010 ∷ 0b10011 ∷ 0b10100 ∷ [])
    then leb size 2
    else if opcode == 0b11100 || opcode == 0b11111
    then leb 2 size && not_d_or_q size q
    else false

unfoldable pub shift_imm : ℕ → Insn
unfolding immh_size is_shift_imm
shift_imm word =
    let q = field word 30 1 == 1 in
    let u = field word 29 1 == 1 in
    let immh = field word 19 4 in
    let opcode = field word 11 5 in
    if not (is_shift_imm q u (immh_size immh) opcode)
    then Insn.unsupported word
    else Insn.simd_shift_imm q u immh (field word 16 3) opcode (field word 5 5) (field word 0 5)

unfoldable pub mod_imm : ℕ → Insn
mod_imm word =
    let cmode = field word 12 4 in
    let op = field word 29 1 == 1 in
    let q = field word 30 1 == 1 in
    if cmode == 0b1111 && op && not q
    then Insn.unsupported word
    else if field word 11 1 != 0
    then Insn.unsupported word
    else Insn.simd_mod_imm q op cmode (u8 (bit_or (field word 16 3 <<< 5) (field word 5 5)))
        (field word 0 5)
