-- ===== src/Decoder/Neon.antt =====
-- crates/decoder/src/neon.rs: the routing of the vector group.
pub mod Matches
pub mod Lanes
pub mod Elements
pub mod Misc
pub mod Scalar
use v.Base.{ℕ, Bool, ◌&&◌, ◌==◌, leb, if◌then◌else◌}
use v.Decoder.Insn.{Insn}
use v.Decoder.Fields.{field}
use v.Decoder.Neon.Matches.{matches}
use v.Decoder.Neon.Lanes.{across, three_diff, three_same, three_same_extra, three_same_fp}
use v.Decoder.Neon.Elements.{copy, indexed, shift_imm, mod_imm}
use v.Decoder.Neon.Misc.{aes, ext, tbl, two_reg_misc, zip_trn}

unfoldable pub decode : ℕ → Insn
unfolding matches
decode word =
    if field word 24 5 == 0b01111
    then (if field word 10 1 == 0
        then indexed word
        else if field word 19 4 == 0
        then mod_imm word
        else shift_imm word)
    else if matches word 0xbf20_8c00 0x0e00_0800
    then zip_trn word
    else if matches word 0xbf20_8c00 0x0e00_0000
    then tbl word
    else if matches word 0xff3e_0c00 0x4e28_0800
    then aes word
    else if matches word 0x9f20_c400 0x0e00_8400
    then three_same_extra word
    else if matches word 0xbf20_8400 0x2e00_0000
    then ext word
    else if matches word 0x9f3e_0c00 0x0e30_0800
    then across word
    else if matches word 0x9f3e_0c00 0x0e20_0800
    then two_reg_misc word
    else if matches word 0x9fe0_8400 0x0e00_0400
    then copy word
    else if field word 24 5 == 0b01110 && field word 21 1 == 1 && field word 10 2 == 0
    then three_diff word
    else if field word 24 5 == 0b01110 && field word 21 1 == 1 && field word 10 1 == 1
    then (if leb 0b11000 (field word 11 5) then three_same_fp word else three_same word)
    else Insn.unsupported word
