-- ===== src/Decoder/Decode.antt =====
-- crates/decoder/src/lib.rs: the routing of an instruction word by its bits 25 to 28.
use v.Base.{ℕ, bit_and, ◌||◌, ◌==◌, if◌then◌else◌}
use v.Decoder.Insn.{Insn}
use v.Decoder.Fields.{field}
use v.Decoder.DpImm
use v.Decoder.DpReg
use v.Decoder.Branch
use v.Decoder.Ldst
use v.Decoder.Fp
use v.Decoder.Neon
use v.Decoder.Neon.Scalar

unfoldable pub decode : ℕ → Insn
decode word =
    let op0 = field word 25 4 in
    if bit_and op0 0b0101 == 0b0100
    then Ldst.decode word
    else if op0 == 0b1000 || op0 == 0b1001
    then DpImm.decode word
    else if op0 == 0b1010 || op0 == 0b1011
    then Branch.decode word
    else if op0 == 0b0101 || op0 == 0b1101
    then DpReg.decode word
    else if op0 == 0b1111
    then (if field word 30 1 == 1 then Scalar.decode word else Fp.decode word)
    else if op0 == 0b0111
    then Neon.decode word
    else Insn.unsupported word
