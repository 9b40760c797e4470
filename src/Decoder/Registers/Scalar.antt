-- ===== src/Decoder/Registers/Scalar.antt =====
-- The decoders of the scalar vector forms name registers below 32.
use v.Base.{ℕ, ◌+◌, ◌*◌, ◌<<<◌, ◌>>>◌, bit_and, bit_or, refl, true, not, ◌&&◌}
use v.Base.{◌||◌, ◌==◌, ◌!=◌}
use v.Base.{if◌then◌else◌, [], ◌∷◌}
use v.Decoder.Fields.{field, rd-lt, rn-lt, rm-lt}
use v.Decoder.Registers.{named, Fits, Fits-if, Fits-unsupported, Fits-match, Fits-named}
use v.Decoder.Neon.Scalar
use v.Decoder.Neon.Scalar.{is_three_same, is_two_reg_misc, is_shift_imm}
use v.Decoder.Neon.Elements.{is_fp_key, indexed_operand}
use v.Decoder.Registers.Elements.{indexed_operand-lt}
use v.Decoder.Registers.Lanes.{sha_three_reg-Fits, sha_two_reg-Fits}
use v.Decoder.Neon.Matches.{matches, one_of}

module _ (word : ℕ) where
  three_same-Fits : Fits word (Scalar.three_same word)
  unfolding Scalar.three_same named
  three_same-Fits =
      let u = field word 29 1 == 1 in
      let size = field word 22 2 in
      let opcode = field word 11 5 in
      Fits-if word (not (is_three_same u size opcode)) _ _ (Fits-unsupported word)
        (Fits-named word _ refl (rm-lt word, (rn-lt word, (rd-lt word, tt))))

  two_reg_misc-Fits : Fits word (Scalar.two_reg_misc word)
  unfolding Scalar.two_reg_misc named
  two_reg_misc-Fits =
      let u = field word 29 1 == 1 in
      let size = field word 22 2 in
      let opcode = field word 12 5 in
      Fits-if word (not (is_two_reg_misc u size opcode)) _ _ (Fits-unsupported word)
        (Fits-named word _ refl (rn-lt word, (rd-lt word, tt)))

  pairwise-Fits : Fits word (Scalar.pairwise word)
  unfolding Scalar.pairwise named
  pairwise-Fits =
      let u = field word 29 1 == 1 in
      let size = field word 22 2 in
      let opcode = field word 12 5 in
      let full = bit_or opcode ((size >>> 1) <<< 5) in
      let valid =
        if not u
        then opcode == 0x1b && size == 3
        else one_of full (0xc ∷ 0xd ∷ 0xf ∷ 0x2c ∷ 0x2f ∷ []) in
      Fits-if word (not valid) _ _ (Fits-unsupported word)
        (Fits-named word _ refl (rn-lt word, (rd-lt word, tt)))

  three_diff-Fits : Fits word (Scalar.three_diff word)
  unfolding Scalar.three_diff named
  three_diff-Fits =
      let u = field word 29 1 == 1 in
      let size = field word 22 2 in
      let opcode = field word 12 4 in
      let valid = not u && one_of opcode (0x9 ∷ 0xb ∷ 0xd ∷ []) && (size == 1 || size == 2) in
      Fits-if word (not valid) _ _ (Fits-unsupported word)
        (Fits-named word _ refl (rm-lt word, (rn-lt word, (rd-lt word, tt))))

  copy-Fits : Fits word (Scalar.copy word)
  unfolding Scalar.copy named
  copy-Fits =
      let imm5 = field word 16 5 in
      Fits-if word (field word 29 1 != 0 || field word 11 4 != 0 || bit_and imm5 0xf == 0) _ _
        (Fits-unsupported word) (Fits-named word _ refl (rn-lt word, (rd-lt word, tt)))

  shift_imm-Fits : Fits word (Scalar.shift_imm word)
  unfolding Scalar.shift_imm named
  shift_imm-Fits =
      let u = field word 29 1 == 1 in
      let immh = field word 19 4 in
      let opcode = field word 11 5 in
      Fits-if word (immh == 0) _ _ (Fits-unsupported word) (
        Fits-if word (not (is_shift_imm u immh opcode)) _ _ (Fits-unsupported word)
          (Fits-named word _ refl (rn-lt word, (rd-lt word, tt))))

  indexed-Fits : Fits word (Scalar.indexed word)
  unfolding Scalar.indexed named
  indexed-Fits =
      let size = field word 22 2 in
      let key = 16 * field word 29 1 + field word 12 4 in
      let allocated =
        one_of key (0x03 ∷ 0x07 ∷ 0x0b ∷ 0x0c ∷ 0x0d ∷ 0x01 ∷ 0x05 ∷ 0x09 ∷ 0x19 ∷ []) in
      let size_ok = if is_fp_key key then size == 2 || size == 3 else size == 1 || size == 2 in
      Fits-if word (not allocated || not size_ok) _ _ (Fits-unsupported word) (
        Fits-match word (indexed_operand word size true) _ λ r e.
          Fits-named word _ refl
            ((indexed_operand-lt word size true).at r e, (rn-lt word, (rd-lt word, tt))))

  pub decode-Fits : Fits word (Scalar.decode word)
  unfolding Scalar.decode named
  decode-Fits = Fits-if word (matches word 0xff20_8c00 0x5e00_0000) _ _ (sha_three_reg-Fits word) (
      Fits-if word (matches word 0xff3e_0c00 0x5e28_0800) _ _ (sha_two_reg-Fits word) (
        Fits-if word (matches word 0xdf20_0c00 0x5e20_0000) _ _ (three_diff-Fits) (
          Fits-if word (matches word 0xdf20_0400 0x5e20_0400) _ _ (three_same-Fits) (
            Fits-if word (matches word 0xdf3e_0c00 0x5e20_0800) _ _ (two_reg_misc-Fits) (
              Fits-if word (matches word 0xdf3e_0c00 0x5e30_0800) _ _ (pairwise-Fits) (
                Fits-if word (matches word 0xdfe0_8400 0x5e00_0400) _ _ (copy-Fits) (
                  Fits-if word (matches word 0xdf00_0400 0x5f00_0000) _ _ (indexed-Fits) (
                    Fits-if word (matches word 0xdf80_0400 0x5f00_0400) _ _ (shift_imm-Fits)
                      (Fits-unsupported word)))))))))
