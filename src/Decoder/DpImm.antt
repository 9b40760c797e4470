-- ===== src/Decoder/DpImm.antt =====
-- crates/decoder/src/dp_imm.rs and its classes: data processing with an immediate.
use v.Base.{ℕ, ◌<<<◌, bit_and, bit_or, u64, asr, bit_of}
use v.Base.{true, false, not, ◌&&◌, ◌||◌, Option, none, some, ◌==◌, ◌!=◌, leb, ltb, if◌then◌else◌}
use v.Decoder.Insn.{Insn}
use v.Decoder.Fields.{sf, field}
use v.Decoder.Bitmask.{decode_bit_masks}

unfoldable pub add_sub_imm : ℕ → Insn
add_sub_imm word =
    let shift = field word 22 2 in
    if leb 2 shift
    then Insn.unsupported word
    else Insn.add_sub_imm (sf word) (field word 30 1 == 1) (field word 29 1 == 1) (shift == 1)
        (field word 10 12) (field word 5 5) (field word 0 5)

unfoldable pub logical_imm_of : ℕ → Option (ℕ × ℕ) → Insn
logical_imm_of word (some (mask, tail)) =
    Insn.logical_imm (sf word) (field word 29 2)
      (if sf word then mask else bit_and mask 0xffff_ffff) (field word 5 5) (field word 0 5)
logical_imm_of word none = Insn.unsupported word

unfoldable pub logical_imm : ℕ → Insn
unfolding logical_imm_of
logical_imm word =
    let n = field word 22 1 in
    if not (sf word) && n != 0
    then Insn.unsupported word
    else logical_imm_of word (decode_bit_masks n (field word 10 6) (field word 16 6) true)

unfoldable pub move_wide : ℕ → Insn
move_wide word =
    let opc = field word 29 2 in
    let hw = field word 21 2 in
    if opc == 1
    then Insn.unsupported word
    else if not (sf word) && leb 2 hw
    then Insn.unsupported word
    else Insn.move_wide (sf word) opc hw (field word 5 16) (field word 0 5)

unfoldable pub bitfield_of : ℕ → Option (ℕ × ℕ) → Insn
bitfield_of word (some (wmask, tmask)) =
    Insn.bitfield (sf word) (field word 29 2) wmask tmask (field word 16 6) (field word 10 6)
      (field word 5 5) (field word 0 5)
bitfield_of word none = Insn.unsupported word

unfoldable pub bitfield : ℕ → Insn
unfolding bitfield_of
bitfield word =
    let opc = field word 29 2 in
    let n = field word 22 1 in
    let immr = field word 16 6 in
    let imms = field word 10 6 in
    let bitsize = if sf word then 64 else 32 in
    if bit_of (sf word) != n || leb bitsize immr || leb bitsize imms || ltb 2 opc
    then Insn.unsupported word
    else bitfield_of word (decode_bit_masks n imms immr false)

unfoldable pub extract : ℕ → Insn
extract word =
    let n = field word 22 1 in
    let o0 = field word 21 1 in
    let op21 = field word 29 2 in
    let imms = field word 10 6 in
    let bitsize = if sf word then 64 else 32 in
    if bit_of (sf word) != n || op21 != 0 || o0 != 0 || leb bitsize imms
    then Insn.unsupported word
    else Insn.extract (sf word) (field word 16 5) (field word 5 5) imms (field word 0 5)

unfoldable pub pc_rel : ℕ → Insn
pc_rel word =
    let page = field word 31 1 == 1 in
    let imm21 = bit_or (field word 5 19 <<< 2) (field word 29 2) in
    let raw = asr 64 (u64 (imm21 <<< 43)) 43 in
    Insn.pc_rel page (if page then u64 (raw <<< 12) else raw) (field word 0 5)

unfoldable pub decode : ℕ → Insn
decode word =
    let class = field word 23 3 in
    if class == 0 || class == 1
    then pc_rel word
    else if class == 2
    then add_sub_imm word
    else if class == 4
    then logical_imm word
    else if class == 5
    then move_wide word
    else if class == 6
    then bitfield word
    else if class == 7
    then extract word
    else Insn.unsupported word
