-- ===== src/Decoder/Registers/DpReg.antt =====
-- The decoder of data processing on registers names registers below 32.
use v.Base.{ℕ, refl, not, ◌&&◌}
use v.Base.{◌||◌, ◌==◌, ◌!=◌, leb, ltb}
use v.Decoder.Fields.{sf, field, rd-lt, rn-lt, ra-lt, rm-lt}
use v.Decoder.Registers.{named, Fits, Fits-if, Fits-unsupported, Fits-named}
use v.Decoder.DpReg
use v.Decoder.DpReg.{shift_of, is_2src, is_3src}

module _ (word : ℕ) where
  add_sub_shifted_reg-Fits : Fits word (DpReg.add_sub_shifted_reg word)
  unfolding DpReg.add_sub_shifted_reg named
  add_sub_shifted_reg-Fits =
      let amount = field word 10 6 in
      Fits-if word (field word 22 2 == 3) _ _ (Fits-unsupported word) (
        Fits-if word (not (sf word) && leb 32 amount) _ _ (Fits-unsupported word)
          (Fits-named word _ refl (rm-lt word, (rn-lt word, (rd-lt word, tt)))))

  add_sub_ext_reg-Fits : Fits word (DpReg.add_sub_ext_reg word)
  unfolding DpReg.add_sub_ext_reg named
  add_sub_ext_reg-Fits =
      let imm3 = field word 10 3 in
      Fits-if word (ltb 4 imm3) _ _ (Fits-unsupported word)
        (Fits-named word _ refl (rm-lt word, (rn-lt word, (rd-lt word, tt))))

  add_sub_carry-Fits : Fits word (DpReg.add_sub_carry word)
  unfolding DpReg.add_sub_carry named
  add_sub_carry-Fits =
      Fits-if word (field word 10 6 != 0) _ _ (Fits-unsupported word)
        (Fits-named word _ refl (rm-lt word, (rn-lt word, (rd-lt word, tt))))

  logical_reg-Fits : Fits word (DpReg.logical_reg word)
  unfolding DpReg.logical_reg named
  logical_reg-Fits =
      let amount = field word 10 6 in
      Fits-if word (not (sf word) && leb 32 amount) _ _ (Fits-unsupported word)
        (Fits-named word _ refl (rm-lt word, (rn-lt word, (rd-lt word, tt))))

  cond_compare-Fits : Fits word (DpReg.cond_compare word)
  unfolding DpReg.cond_compare named
  cond_compare-Fits =
      Fits-if word (field word 29 1 != 1 || field word 10 1 != 0 || field word 4 1 != 0) _ _
        (Fits-unsupported word) (Fits-named word _ refl (rm-lt word, (rn-lt word, tt)))

  cond_select-Fits : Fits word (DpReg.cond_select word)
  unfolding DpReg.cond_select named
  cond_select-Fits =
      Fits-if word (field word 11 1 != 0) _ _ (Fits-unsupported word)
        (Fits-named word _ refl (rm-lt word, (rn-lt word, (rd-lt word, tt))))

  data_proc_1src-Fits : Fits word (DpReg.data_proc_1src word)
  unfolding DpReg.data_proc_1src named
  data_proc_1src-Fits =
      let opcode = field word 10 6 in
      Fits-if word (field word 16 5 != 0) _ _ (Fits-unsupported word) (
        Fits-if word (ltb 5 opcode || opcode == 3 && not (sf word)) _ _ (Fits-unsupported word)
          (Fits-named word _ refl (rn-lt word, (rd-lt word, tt))))

  data_proc_2src-Fits : Fits word (DpReg.data_proc_2src word)
  unfolding DpReg.data_proc_2src named
  data_proc_2src-Fits =
      let opcode = field word 10 6 in
      Fits-if word (not (is_2src opcode (sf word))) _ _ (Fits-unsupported word)
        (Fits-named word _ refl (rm-lt word, (rn-lt word, (rd-lt word, tt))))

  data_proc_3src-Fits : Fits word (DpReg.data_proc_3src word)
  unfolding DpReg.data_proc_3src named
  data_proc_3src-Fits =
      let op31 = field word 21 3 in
      let o0 = field word 15 1 == 1 in
      Fits-if word (field word 29 2 != 0) _ _ (Fits-unsupported word) (
        Fits-if word (not (is_3src op31 (sf word) o0)) _ _ (Fits-unsupported word)
          (Fits-named word _ refl (rm-lt word, (ra-lt word, (rn-lt word, (rd-lt word, tt))))))

  pub decode-Fits : Fits word (DpReg.decode word)
  unfolding DpReg.decode named
  decode-Fits =
      let family = field word 24 5 in
      let class = field word 21 3 in
      Fits-if word (family == 0b01010) _ _ (logical_reg-Fits) (
        Fits-if word (family == 0b01011) _ _
          (Fits-if word (field word 21 1 == 0) _ _ (add_sub_shifted_reg-Fits)
            (add_sub_ext_reg-Fits))
          (Fits-if word (family == 0b11011) _ _ (data_proc_3src-Fits) (
            Fits-if word (family == 0b11010) _ _
              (Fits-if word (class == 0) _ _ (add_sub_carry-Fits) (
                Fits-if word (class == 2) _ _ (cond_compare-Fits) (
                  Fits-if word (class == 4) _ _ (cond_select-Fits) (
                    Fits-if word (class == 6) _ _
                      (Fits-if word (field word 30 1 == 1) _ _ (data_proc_1src-Fits)
                        (data_proc_2src-Fits))
                      (Fits-unsupported word)))))
              (Fits-unsupported word))))
