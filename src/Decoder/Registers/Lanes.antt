-- ===== src/Decoder/Registers/Lanes.antt =====
-- The vector decoders on whole lanes name registers below 32.
use v.Base.{ℕ, ◌+◌, ◌*◌, ◌<<<◌, bit_and, bit_or, refl, false, not, ◌&&◌}
use v.Base.{◌||◌, ◌==◌, ◌!=◌, leb, ltb}
use v.Base.{if◌then◌else◌, [], ◌∷◌}
use v.Decoder.Fields.{field, rd-lt, rn-lt, rm-lt}
use v.Decoder.Registers.{named, Fits, Fits-if, Fits-unsupported, Fits-named}
use v.Decoder.Neon.Lanes
use v.Decoder.Neon.Lanes.{is_across, is_three_diff, is_three_same, is_three_same_fp}
use v.Decoder.Neon.Misc
use v.Decoder.Neon.Misc.{fp_valid, is_fp_block, is_two_reg_misc}
use v.Decoder.Neon.Matches.{one_of, fp_opcode}

module _ (word : ℕ) where
  pub across-Fits : Fits word (Lanes.across word)
  unfolding Lanes.across named
  across-Fits =
      let q = field word 30 1 == 1 in
      let u = field word 29 1 == 1 in
      let size = field word 22 2 in
      let opcode = field word 12 5 in
      let size_ok = leb size 2 && (size != 2 || q) in
      Fits-if word (not (size_ok && is_across u opcode)) _ _ (Fits-unsupported word)
        (Fits-named word _ refl (rn-lt word, (rd-lt word, tt)))

  pub three_diff-Fits : Fits word (Lanes.three_diff word)
  unfolding Lanes.three_diff named
  three_diff-Fits =
      let u = field word 29 1 == 1 in
      let size = field word 22 2 in
      let opcode = field word 12 4 in
      Fits-if word (not (leb size 2 && is_three_diff u size opcode)) _ _ (Fits-unsupported word)
        (Fits-named word _ refl (rm-lt word, (rn-lt word, (rd-lt word, tt))))

  pub three_same-Fits : Fits word (Lanes.three_same word)
  unfolding Lanes.three_same named
  three_same-Fits =
      let q = field word 30 1 == 1 in
      let u = field word 29 1 == 1 in
      let size = field word 22 2 in
      let opcode = field word 11 5 in
      Fits-if word (not (is_three_same q u size opcode)) _ _ (Fits-unsupported word)
        (Fits-named word _ refl (rm-lt word, (rn-lt word, (rd-lt word, tt))))

  pub three_same_extra-Fits : Fits word (Lanes.three_same_extra word)
  unfolding Lanes.three_same_extra named
  three_same_extra-Fits =
      let u = field word 29 1 in
      let size = field word 22 2 in
      let opcode = field word 11 4 in
      let key = u * 16 + opcode in
      let valid =
        if one_of key (0x10 ∷ 0x11 ∷ [])
        then size == 1 || size == 2
        else if one_of key (0x02 ∷ 0x12 ∷ [])
        then size == 2
        else false in
      Fits-if word (not valid) _ _ (Fits-unsupported word)
        (Fits-named word _ refl (rm-lt word, (rn-lt word, (rd-lt word, tt))))

  pub three_same_fp-Fits : Fits word (Lanes.three_same_fp word)
  unfolding Lanes.three_same_fp named
  three_same_fp-Fits =
      let fpopcode =
        bit_or (bit_or (field word 11 5) (field word 23 1 <<< 5)) (field word 29 1 <<< 6) in
      let q = field word 30 1 == 1 in
      let sz = field word 22 1 == 1 in
      Fits-if word (not (is_three_same_fp fpopcode)) _ _ (Fits-unsupported word) (
        Fits-if word (sz && not q) _ _ (Fits-unsupported word)
          (Fits-named word _ refl (rm-lt word, (rn-lt word, (rd-lt word, tt)))))

  pub aes-Fits : Fits word (Misc.aes word)
  unfolding Misc.aes named
  aes-Fits =
      let opcode = field word 12 5 in
      Fits-if word (field word 22 2 != 0) _ _ (Fits-unsupported word) (
        Fits-if word (not (one_of opcode (0x4 ∷ 0x5 ∷ 0x6 ∷ 0x7 ∷ []))) _ _ (Fits-unsupported word)
          (Fits-named word _ refl (rn-lt word, (rd-lt word, tt))))

  pub sha_three_reg-Fits : Fits word (Misc.sha_three_reg word)
  unfolding Misc.sha_three_reg named
  sha_three_reg-Fits =
      let opcode = field word 12 3 in
      Fits-if word (field word 22 2 != 0) _ _ (Fits-unsupported word) (
        Fits-if word (ltb 6 opcode) _ _ (Fits-unsupported word)
          (Fits-named word _ refl (rm-lt word, (rn-lt word, (rd-lt word, tt)))))

  pub sha_two_reg-Fits : Fits word (Misc.sha_two_reg word)
  unfolding Misc.sha_two_reg named
  sha_two_reg-Fits =
      let opcode = field word 12 5 in
      Fits-if word (field word 22 2 != 0) _ _ (Fits-unsupported word) (
        Fits-if word (ltb 2 opcode) _ _ (Fits-unsupported word)
          (Fits-named word _ refl (rn-lt word, (rd-lt word, tt))))

  pub ext-Fits : Fits word (Misc.ext word)
  unfolding Misc.ext named
  ext-Fits =
      let q = field word 30 1 == 1 in
      let imm4 = field word 11 4 in
      Fits-if word (not q && bit_and imm4 0b1000 != 0) _ _ (Fits-unsupported word)
        (Fits-named word _ refl (rm-lt word, (rn-lt word, (rd-lt word, tt))))

  pub tbl-Fits : Fits word (Misc.tbl word)
  unfolding Misc.tbl named
  tbl-Fits = Fits-named word _ refl (rm-lt word, (rn-lt word, (rd-lt word, tt)))

  pub zip_trn-Fits : Fits word (Misc.zip_trn word)
  unfolding Misc.zip_trn named
  zip_trn-Fits =
      let q = field word 30 1 == 1 in
      let size = field word 22 2 in
      let opcode = field word 12 3 in
      Fits-if word (opcode == 0 || opcode == 0b100) _ _ (Fits-unsupported word) (
        Fits-if word (size == 3 && not q) _ _ (Fits-unsupported word)
          (Fits-named word _ refl (rm-lt word, (rn-lt word, (rd-lt word, tt)))))

  pub two_reg_misc-Fits : Fits word (Misc.two_reg_misc word)
  unfolding Misc.two_reg_misc named
  two_reg_misc-Fits =
      let q = field word 30 1 == 1 in
      let u = field word 29 1 == 1 in
      let size = field word 22 2 in
      let opcode = field word 12 5 in
      let is_double = bit_and size 1 == 1 in
      let fpop = fp_opcode opcode size u in
      Fits-if word (is_fp_block opcode) _ _
        (Fits-if word (not (fp_valid fpop is_double q)) _ _ (Fits-unsupported word)
          (Fits-named word _ refl (rn-lt word, (rd-lt word, tt))))
        (Fits-if word (not (is_two_reg_misc q u size opcode)) _ _ (Fits-unsupported word)
          (Fits-named word _ refl (rn-lt word, (rd-lt word, tt))))
