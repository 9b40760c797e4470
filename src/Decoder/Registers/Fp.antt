-- ===== src/Decoder/Registers/Fp.antt =====
-- The floating-point decoder names registers below 32.
use v.Base.{ℕ, bit_and, refl, not, ◌&&◌}
use v.Base.{◌||◌, ◌==◌, ◌!=◌, ltb}
use v.Decoder.Insn.{Insn}
use v.Decoder.Fields.{field, rd-lt, rn-lt, ra-lt, rm-lt}
use v.Decoder.Registers.{named, Fits, Fits-if, Fits-unsupported, Fits-named}
use v.Decoder.Fp
use v.Decoder.Fp.{ftype_ok, is_cvt, is_dp1}

module _ (word : ℕ) where
  ccmp-Fits : Fits word (Fp.ccmp word)
  unfolding Fp.ccmp named
  ccmp-Fits =
      let ftype = field word 22 2 in
      Fits-if word (field word 21 1 != 1 || not (ftype_ok ftype)) _ _ (Fits-unsupported word)
        (Fits-named word _ refl (rm-lt word, (rn-lt word, tt)))

  compare-Fits : Fits word (Fp.compare word)
  unfolding Fp.compare named
  compare-Fits =
      let ftype = field word 22 2 in
      let opcode2 = field word 0 5 in
      Fits-if word (not (ftype_ok ftype) || field word 14 2 != 0 || bit_and opcode2 0b00111 != 0) _
        _ (Fits-unsupported word) (Fits-named word _ refl (rm-lt word, (rn-lt word, tt)))

  csel-Fits : Fits word (Fp.csel word)
  unfolding Fp.csel named
  csel-Fits =
      let ftype = field word 22 2 in
      Fits-if word (not (ftype_ok ftype)) _ _ (Fits-unsupported word)
        (Fits-named word _ refl (rm-lt word, (rn-lt word, (rd-lt word, tt))))

  cvt-Fits : Fits word (Fp.cvt word)
  unfolding Fp.cvt named
  cvt-Fits =
      let sf = field word 31 1 == 1 in
      let ftype = field word 22 2 in
      let rmode = field word 19 2 in
      let opcode = field word 16 3 in
      let made = Insn.fp_cvt_int sf ftype rmode opcode (field word 5 5) (field word 0 5) in
      Fits-if word (sf && ftype == 0b10 && rmode == 0b01 && (opcode == 0b110 || opcode == 0b111)) _
        _ (Fits-named word _ refl (rn-lt word, (rd-lt word, tt)))
        (Fits-if word (not (ftype_ok ftype)) _ _ (Fits-unsupported word) (
          Fits-if word (not (is_cvt sf ftype rmode opcode)) _ _ (Fits-unsupported word)
            (Fits-named word _ refl (rn-lt word, (rd-lt word, tt)))))

  dp1-Fits : Fits word (Fp.dp1 word)
  unfolding Fp.dp1 named
  dp1-Fits =
      let ftype = field word 22 2 in
      let opcode = field word 15 6 in
      Fits-if word (not (is_dp1 ftype opcode)) _ _ (Fits-unsupported word)
        (Fits-named word _ refl (rn-lt word, (rd-lt word, tt)))

  dp2-Fits : Fits word (Fp.dp2 word)
  unfolding Fp.dp2 named
  dp2-Fits =
      let ftype = field word 22 2 in
      let opcode = field word 12 4 in
      Fits-if word (not (ftype_ok ftype) || ltb 0b1000 opcode) _ _ (Fits-unsupported word)
        (Fits-named word _ refl (rm-lt word, (rn-lt word, (rd-lt word, tt))))

  dp3-Fits : Fits word (Fp.dp3 word)
  unfolding Fp.dp3 named
  dp3-Fits =
      let ftype = field word 22 2 in
      Fits-if word (not (ftype_ok ftype)) _ _ (Fits-unsupported word)
        (Fits-named word _ refl (rm-lt word, (ra-lt word, (rn-lt word, (rd-lt word, tt)))))

  fixed-Fits : Fits word (Fp.fixed word)
  unfolding Fp.fixed named
  fixed-Fits =
      let sf = field word 31 1 == 1 in
      let ftype = field word 22 2 in
      let rmode = field word 19 2 in
      let opcode = field word 16 3 in
      let scale = field word 10 6 in
      let valid =
        rmode == 0b00 && (opcode == 0b010 || opcode == 0b011)
        || rmode == 0b11 && (opcode == 0b000 || opcode == 0b001) in
      Fits-if word (not (ftype_ok ftype)) _ _ (Fits-unsupported word) (
        Fits-if word (not valid || not sf && ltb scale 32) _ _ (Fits-unsupported word)
          (Fits-named word _ refl (rn-lt word, (rd-lt word, tt))))

  imm-Fits : Fits word (Fp.imm word)
  unfolding Fp.imm named
  imm-Fits =
      let ftype = field word 22 2 in
      Fits-if word (not (ftype_ok ftype) || field word 5 5 != 0) _ _ (Fits-unsupported word)
        (Fits-named word _ refl (rd-lt word, tt))

  pub decode-Fits : Fits word (Fp.decode word)
  unfolding Fp.decode named
  decode-Fits = Fits-if word (field word 24 5 == 0b11111) _ _ (dp3-Fits) (
      Fits-if word (field word 24 5 != 0b11110) _ _ (Fits-unsupported word) (
        Fits-if word (field word 21 1 == 0) _ _ (fixed-Fits) (
          Fits-if word (field word 10 2 == 0b00) _ _
            (Fits-if word (field word 10 6 == 0b000000) _ _ (cvt-Fits) (
              Fits-if word (field word 10 5 == 0b10000) _ _ (dp1-Fits) (
                Fits-if word (field word 10 4 == 0b1000) _ _ (compare-Fits) (
                  Fits-if word (field word 10 3 == 0b100) _ _ (imm-Fits) (Fits-unsupported word)))))
            (Fits-if word (field word 10 2 == 0b10) _ _ (dp2-Fits)
              (Fits-if word (field word 10 2 == 0b11) _ _ (csel-Fits) (ccmp-Fits))))))
