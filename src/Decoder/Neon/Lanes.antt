-- ===== src/Decoder/Neon/Lanes.antt =====
-- crates/decoder/src/neon/{across,three_diff,three_same,three_same_extra,three_same_fp}.rs.
use v.Base.{ℕ, ◌+◌, ◌*◌, ◌<<<◌, bit_or, Bool, true, false, not, ◌&&◌, ◌||◌, [], ◌∷◌}
use v.Base.{◌==◌, ◌!=◌, leb, if◌then◌else◌}
use v.Decoder.Insn.{Insn}
use v.Decoder.Fields.{field}
use v.Decoder.Neon.Matches.{one_of, not_d_or_q}

unfoldable pub is_across : Bool → ℕ → Bool
is_across u opcode =
    if opcode == 0b00011
    then true
    else if opcode == 0b11011
    then not u
    else opcode == 0b01010 || opcode == 0b11010

unfoldable pub across : ℕ → Insn
unfolding is_across
across word =
    let q = field word 30 1 == 1 in
    let u = field word 29 1 == 1 in
    let size = field word 22 2 in
    let opcode = field word 12 5 in
    let size_ok = leb size 2 && (size != 2 || q) in
    if not (size_ok && is_across u opcode)
    then Insn.unsupported word
    else Insn.simd_across_lanes q u size opcode (field word 5 5) (field word 0 5)

unfoldable pub is_three_diff : Bool → ℕ → ℕ → Bool
is_three_diff u size opcode =
    if one_of opcode
      (0b0000 ∷ 0b0001 ∷ 0b0010 ∷ 0b0011 ∷ 0b0101 ∷ 0b0111 ∷ 0b1000 ∷ 0b1010 ∷ 0b1100 ∷ [])
    then true
    else if opcode == 0b0100 || opcode == 0b0110
    then true
    else if one_of opcode (0b1001 ∷ 0b1011 ∷ 0b1101 ∷ [])
    then not u && (size == 1 || size == 2)
    else if opcode == 0b1110
    then not u && size == 0
    else false

unfoldable pub three_diff : ℕ → Insn
unfolding is_three_diff
three_diff word =
    let u = field word 29 1 == 1 in
    let size = field word 22 2 in
    let opcode = field word 12 4 in
    if not (leb size 2 && is_three_diff u size opcode)
    then Insn.unsupported word
    else Insn.simd_three_diff (field word 30 1 == 1) u size opcode (field word 16 5)
        (field word 5 5) (field word 0 5)

unfoldable pub is_three_same : Bool → Bool → ℕ → ℕ → Bool
is_three_same q u size opcode =
    if opcode == 0b00011
    then true
    else if one_of opcode (
        0b00001 ∷ 0b00101 ∷ 0b00110 ∷ 0b00111 ∷ 0b10000 ∷ 0b10001 ∷ 0b01000 ∷ 0b01010 ∷ 0b01001
        ∷ 0b01011 ∷ [])
    then not_d_or_q size q
    else if one_of opcode (
        0b10010 ∷ 0b00000 ∷ 0b00010 ∷ 0b00100 ∷ 0b01100 ∷ 0b01101 ∷ 0b01110 ∷ 0b01111 ∷ 0b10100
        ∷ 0b10101 ∷ [])
    then leb size 2
    else if opcode == 0b10111
    then not u && not_d_or_q size q
    else if opcode == 0b10110
    then one_of size (1 ∷ 2 ∷ [])
    else if opcode == 0b10011
    then (if u then size == 0 else leb size 2)
    else false

unfoldable pub three_same : ℕ → Insn
unfolding is_three_same
three_same word =
    let q = field word 30 1 == 1 in
    let u = field word 29 1 == 1 in
    let size = field word 22 2 in
    let opcode = field word 11 5 in
    if not (is_three_same q u size opcode)
    then Insn.unsupported word
    else Insn.simd_three_same q u size opcode (field word 16 5) (field word 5 5) (field word 0 5)

unfoldable pub three_same_extra : ℕ → Insn
three_same_extra word =
    let u = field word 29 1 in
    let size = field word 22 2 in
    let opcode = field word 11 4 in
    let key = u * 16 + opcode in
    let valid =
      if one_of key (0x10 ∷ 0x11 ∷ [])
      then size == 1 || size == 2
      else if one_of key (0x02 ∷ 0x12 ∷ [])
      then size == 2
      else false in
    if not valid
    then Insn.unsupported word
    else Insn.simd_three_same_extra (field word 30 1 == 1) (u == 1) size opcode (field word 16 5)
        (field word 5 5) (field word 0 5)

unfoldable pub is_three_same_fp : ℕ → Bool
is_three_same_fp fpopcode =
    one_of fpopcode
      (0x1a ∷ 0x3a ∷ 0x5b ∷ 0x5f ∷ 0x1e ∷ 0x3e ∷ 0x18 ∷ 0x38 ∷ 0x7a ∷ 0x1c ∷ 0x5c ∷ 0x7c ∷ [])
    || one_of fpopcode (0x19 ∷ 0x39 ∷ 0x1b ∷ 0x1f ∷ 0x3f ∷ 0x5d ∷ 0x7d ∷ [])
    || one_of fpopcode (0x5a ∷ 0x5e ∷ 0x7e ∷ 0x58 ∷ 0x78 ∷ [])

unfoldable pub three_same_fp : ℕ → Insn
unfolding is_three_same_fp
three_same_fp word =
    let fpopcode =
      bit_or (bit_or (field word 11 5) (field word 23 1 <<< 5)) (field word 29 1 <<< 6) in
    let q = field word 30 1 == 1 in
    let sz = field word 22 1 == 1 in
    if not (is_three_same_fp fpopcode)
    then Insn.unsupported word
    else if sz && not q
    then Insn.unsupported word
    else Insn.simd_three_same_fp q sz fpopcode (field word 16 5) (field word 5 5) (field word 0 5)
