-- ===== src/Decoder/Registers/Neon.antt =====
-- The vector decoder names registers below 32.
use v.Base.{ℕ, ◌&&◌}
use v.Base.{◌==◌, leb}
use v.Decoder.Fields.{field}
use v.Decoder.Registers.{named, Fits, Fits-if, Fits-unsupported}
use v.Decoder.Neon
use v.Decoder.Neon.Matches.{matches}
use v.Decoder.Registers.Elements.{shift_imm-Fits, mod_imm-Fits, copy-Fits, indexed-Fits}
use v.Decoder.Registers.Lanes.{across-Fits, three_diff-Fits, three_same-Fits}
use v.Decoder.Registers.Lanes.{three_same_extra-Fits, three_same_fp-Fits}
use v.Decoder.Registers.Lanes.{aes-Fits, ext-Fits, tbl-Fits, zip_trn-Fits, two_reg_misc-Fits}

module _ (word : ℕ) where
  pub decode-Fits : Fits word (Neon.decode word)
  unfolding Neon.decode named
  decode-Fits =
      Fits-if word (field word 24 5 == 0b01111) _ _
        (Fits-if word (field word 10 1 == 0) _ _ (indexed-Fits word)
          (Fits-if word (field word 19 4 == 0) _ _ (mod_imm-Fits word) (shift_imm-Fits word)))
        (Fits-if word (matches word 0xbf20_8c00 0x0e00_0800) _ _ (zip_trn-Fits word) (
          Fits-if word (matches word 0xbf20_8c00 0x0e00_0000) _ _ (tbl-Fits word) (
            Fits-if word (matches word 0xff3e_0c00 0x4e28_0800) _ _ (aes-Fits word) (
              Fits-if word (matches word 0x9f20_c400 0x0e00_8400) _ _ (three_same_extra-Fits word) (
                Fits-if word (matches word 0xbf20_8400 0x2e00_0000) _ _ (ext-Fits word) (
                  Fits-if word (matches word 0x9f3e_0c00 0x0e30_0800) _ _ (across-Fits word) (
                    Fits-if word (matches word 0x9f3e_0c00 0x0e20_0800) _ _ (two_reg_misc-Fits word)
                      (Fits-if word (matches word 0x9fe0_8400 0x0e00_0400) _ _ (copy-Fits word) (
                        Fits-if word
                          (field word 24 5 == 0b01110
                            && field word 21 1 == 1
                            && field word 10 2 == 0)
                          _ _ (three_diff-Fits word)
                          (Fits-if word
                            (field word 24 5 == 0b01110
                              && field word 21 1 == 1
                              && field word 10 1 == 1)
                            _ _
                            (Fits-if word (leb 0b11000 (field word 11 5)) _ _
                              (three_same_fp-Fits word) (three_same-Fits word))
                            (Fits-unsupported word)))))))))))
