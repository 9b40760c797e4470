-- ===== src/Decoder/Registers/DpImm.antt =====
-- The decoder of data processing with an immediate names registers below 32.
use v.Base.{ℕ, ◌<<<◌, bit_or, refl, not, ◌&&◌}
use v.Base.{◌||◌, ◌==◌, ◌!=◌, leb, ltb}
use v.Base.{if◌then◌else◌, Option, some, none}
use v.Decoder.Fields.{sf, field, rd-lt, rn-lt, rm-lt}
use v.Decoder.Registers.{named, Fits, Fits-if, Fits-unsupported, Fits-named}
use v.Base.{bit_of, asr, u64}
use v.Decoder.DpImm

module _ (word : ℕ) where
  add_sub_imm-Fits : Fits word (DpImm.add_sub_imm word)
  unfolding DpImm.add_sub_imm named
  add_sub_imm-Fits =
      let shift = field word 22 2 in
      Fits-if word (leb 2 shift) _ _ (Fits-unsupported word)
        (Fits-named word _ refl (rn-lt word, (rd-lt word, tt)))

  move_wide-Fits : Fits word (DpImm.move_wide word)
  unfolding DpImm.move_wide named
  move_wide-Fits =
      let opc = field word 29 2 in
      let hw = field word 21 2 in
      Fits-if word (opc == 1) _ _ (Fits-unsupported word) (
        Fits-if word (not (sf word) && leb 2 hw) _ _ (Fits-unsupported word)
          (Fits-named word _ refl (rd-lt word, tt)))

  extract-Fits : Fits word (DpImm.extract word)
  unfolding DpImm.extract named
  extract-Fits =
      let n = field word 22 1 in
      let o0 = field word 21 1 in
      let op21 = field word 29 2 in
      let imms = field word 10 6 in
      let bitsize = if sf word then 64 else 32 in
      Fits-if word (bit_of (sf word) != n || op21 != 0 || o0 != 0 || leb bitsize imms) _ _
        (Fits-unsupported word)
        (Fits-named word _ refl (rm-lt word, (rn-lt word, (rd-lt word, tt))))

  pc_rel-Fits : Fits word (DpImm.pc_rel word)
  unfolding DpImm.pc_rel named
  pc_rel-Fits =
      let page = field word 31 1 == 1 in
      let imm21 = bit_or (field word 5 19 <<< 2) (field word 29 2) in
      let raw = asr 64 (u64 (imm21 <<< 43)) 43 in Fits-named word _ refl (rd-lt word, tt)

  logical_imm_of-Fits : (o : Option (ℕ × ℕ)) → Fits word (DpImm.logical_imm_of word o)
  unfolding DpImm.logical_imm_of named
  logical_imm_of-Fits none = Fits-unsupported word
  logical_imm_of-Fits (some r) = Fits-named word _ refl (rn-lt word, (rd-lt word, tt))

  bitfield_of-Fits : (o : Option (ℕ × ℕ)) → Fits word (DpImm.bitfield_of word o)
  unfolding DpImm.bitfield_of named
  bitfield_of-Fits none = Fits-unsupported word
  bitfield_of-Fits (some r) = Fits-named word _ refl (rn-lt word, (rd-lt word, tt))

  logical_imm-Fits : Fits word (DpImm.logical_imm word)
  unfolding DpImm.logical_imm named
  logical_imm-Fits =
      let n = field word 22 1 in
      Fits-if word (not (sf word) && n != 0) _ _ (Fits-unsupported word) (logical_imm_of-Fits _)

  bitfield-Fits : Fits word (DpImm.bitfield word)
  unfolding DpImm.bitfield named
  bitfield-Fits =
      let opc = field word 29 2 in
      let n = field word 22 1 in
      let immr = field word 16 6 in
      let imms = field word 10 6 in
      let bitsize = if sf word then 64 else 32 in
      Fits-if word (bit_of (sf word) != n || leb bitsize immr || leb bitsize imms || ltb 2 opc) _ _
        (Fits-unsupported word) (bitfield_of-Fits _)

  pub decode-Fits : Fits word (DpImm.decode word)
  unfolding DpImm.decode named
  decode-Fits =
      let class = field word 23 3 in
      Fits-if word (class == 0 || class == 1) _ _ (pc_rel-Fits) (
        Fits-if word (class == 2) _ _ (add_sub_imm-Fits) (
          Fits-if word (class == 4) _ _ (logical_imm-Fits) (
            Fits-if word (class == 5) _ _ (move_wide-Fits) (
              Fits-if word (class == 6) _ _ (bitfield-Fits)
                (Fits-if word (class == 7) _ _ (extract-Fits) (Fits-unsupported word))))))
