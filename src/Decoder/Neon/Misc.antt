-- ===== src/Decoder/Neon/Misc.antt =====
-- crates/decoder/src/neon/{aes,sha,ext,tbl,two_reg_misc,zip_trn}.rs.
use v.Base.{ℕ, bit_and, Bool, false, not, ◌&&◌, ◌||◌, [], ◌∷◌}
use v.Base.{◌==◌, ◌!=◌, leb, ltb, if◌then◌else◌}
use v.Decoder.Insn.{Insn}
use v.Decoder.Fields.{field}
use v.Decoder.Neon.Matches.{one_of, not_d_or_q, fp_opcode}

unfoldable pub aes : ℕ → Insn
aes word =
    let opcode = field word 12 5 in
    if field word 22 2 != 0
    then Insn.unsupported word
    else if not (one_of opcode (0x4 ∷ 0x5 ∷ 0x6 ∷ 0x7 ∷ []))
    then Insn.unsupported word
    else Insn.crypto_aes opcode (field word 5 5) (field word 0 5)

unfoldable pub sha_three_reg : ℕ → Insn
sha_three_reg word =
    let opcode = field word 12 3 in
    if field word 22 2 != 0
    then Insn.unsupported word
    else if ltb 6 opcode
    then Insn.unsupported word
    else Insn.crypto_sha3 opcode (field word 16 5) (field word 5 5) (field word 0 5)

unfoldable pub sha_two_reg : ℕ → Insn
sha_two_reg word =
    let opcode = field word 12 5 in
    if field word 22 2 != 0
    then Insn.unsupported word
    else if ltb 2 opcode
    then Insn.unsupported word
    else Insn.crypto_sha2 opcode (field word 5 5) (field word 0 5)

unfoldable pub ext : ℕ → Insn
ext word =
    let q = field word 30 1 == 1 in
    let imm4 = field word 11 4 in
    if not q && bit_and imm4 0b1000 != 0
    then Insn.unsupported word
    else Insn.simd_ext q imm4 (field word 16 5) (field word 5 5) (field word 0 5)

unfoldable pub tbl : ℕ → Insn
tbl word =
    Insn.simd_table_lookup (field word 30 1 == 1) (field word 12 1 == 1) (field word 13 2)
      (field word 16 5) (field word 5 5) (field word 0 5)

unfoldable pub zip_trn : ℕ → Insn
zip_trn word =
    let q = field word 30 1 == 1 in
    let size = field word 22 2 in
    let opcode = field word 12 3 in
    if opcode == 0 || opcode == 0b100
    then Insn.unsupported word
    else if size == 3 && not q
    then Insn.unsupported word
    else Insn.simd_zip_trn q size opcode (field word 16 5) (field word 5 5) (field word 0 5)

unfoldable pub fp_valid : ℕ → Bool → Bool → Bool
fp_valid fpop is_double q =
    if one_of fpop (0x2f ∷ 0x6f ∷ 0x7f ∷ 0x1d ∷ 0x5d ∷ 0x2c ∷ 0x2d ∷ 0x2e ∷ 0x6c ∷ 0x6d ∷ [])
    then not is_double || q
    else if one_of fpop (0x1a ∷ 0x1b ∷ 0x3a ∷ 0x3b ∷ 0x5a ∷ 0x5b ∷ 0x7a ∷ 0x7b ∷ 0x1c ∷ 0x5c ∷ [])
    then not is_double || q
    else if fpop == 0x16 || fpop == 0x17
    then is_double
    else if one_of fpop (0x18 ∷ 0x19 ∷ 0x38 ∷ 0x39 ∷ 0x58 ∷ 0x59 ∷ 0x79 ∷ [])
    then not is_double || q
    else false

-- `matches!(opcode, 0xc..=0xf | 0x16..=0x1f)`
abbrev pub is_fp_block : ℕ → Bool
is_fp_block opcode = leb 0xc opcode && leb opcode 0xf || leb 0x16 opcode && leb opcode 0x1f

unfoldable pub is_two_reg_misc : Bool → Bool → ℕ → ℕ → Bool
is_two_reg_misc q u size opcode =
    if opcode == 0b00000
    then (if u then leb size 1 else leb size 2)
    else if opcode == 0b00001
    then not u && size == 0
    else if one_of opcode (0b00010 ∷ 0b00110 ∷ 0b00100 ∷ 0b10010 ∷ 0b10100 ∷ [])
    then leb size 2
    else if one_of opcode (0b00011 ∷ 0b00111 ∷ 0b01000 ∷ 0b01001 ∷ 0b01011 ∷ [])
    then not_d_or_q size q
    else if opcode == 0b00101
    then not u && size == 0 || u && leb size 1
    else if opcode == 0b01010
    then not u && not_d_or_q size q
    else if opcode == 0b10011
    then u && leb size 2
    else false

unfoldable pub two_reg_misc : ℕ → Insn
unfolding fp_valid is_two_reg_misc
two_reg_misc word =
    let q = field word 30 1 == 1 in
    let u = field word 29 1 == 1 in
    let size = field word 22 2 in
    let opcode = field word 12 5 in
    let is_double = bit_and size 1 == 1 in
    let fpop = fp_opcode opcode size u in
    if is_fp_block opcode
    then (if not (fp_valid fpop is_double q)
        then Insn.unsupported word
        else Insn.simd_two_reg_misc_fp q is_double fpop (field word 5 5) (field word 0 5))
    else if not (is_two_reg_misc q u size opcode)
    then Insn.unsupported word
    else Insn.simd_two_reg_misc q u size opcode (field word 5 5) (field word 0 5)
