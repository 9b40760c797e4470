-- ===== src/Decoder/Registers/Elements.antt =====
-- The decoders of vector elements name registers below 32.
use v.Base.{ℕ, ◌+◌, ◌*◌, ◌<<<◌, bit_or, refl, Bool, true, false, not, ◌&&◌}
use v.Base.{◌||◌, ◌==◌, ◌!=◌, leb}
use v.Base.{if◌then◌else◌, Option, some, none, [], ◌∷◌}
use v.Decoder.Fields.{field, rd-lt, rn-lt}
use v.Decoder.Registers.{named, Fits, Fits-if, Fits-unsupported, Fits-match, Fits-named}
use v.Base.Ensures.{Ensures, Ensures-some, Ensures-none, Ensures-if}
use v.Base.Bits.{bit_or_join_low}
use v.Base.{◌<◌, arith}
use v.Decoder.Fields.{field-lt}
use v.Decoder.Neon.Elements
use v.Decoder.Neon.Elements.{size_index, immh_size, is_shift_imm, is_fp_key, is_indexed}
use v.Decoder.Neon.Elements.{indexed_operand}
use v.Decoder.Neon.Matches.{one_of}

module _ (word : ℕ) where
  pub shift_imm-Fits : Fits word (Elements.shift_imm word)
  unfolding Elements.shift_imm named
  shift_imm-Fits =
      let q = field word 30 1 == 1 in
      let u = field word 29 1 == 1 in
      let immh = field word 19 4 in
      let opcode = field word 11 5 in
      Fits-if word (not (is_shift_imm q u (immh_size immh) opcode)) _ _ (Fits-unsupported word)
        (Fits-named word _ refl (rn-lt word, (rd-lt word, tt)))

  pub mod_imm-Fits : Fits word (Elements.mod_imm word)
  unfolding Elements.mod_imm named
  mod_imm-Fits =
      let cmode = field word 12 4 in
      let op = field word 29 1 == 1 in
      let q = field word 30 1 == 1 in
      Fits-if word (cmode == 0b1111 && op && not q) _ _ (Fits-unsupported word) (
        Fits-if word (field word 11 1 != 0) _ _ (Fits-unsupported word)
          (Fits-named word _ refl (rd-lt word, tt)))

  dup_element-Fits : (q : Bool) (o : Option (ℕ × ℕ)) → Fits word (Elements.dup_element word q o)
  unfolding Elements.dup_element named
  dup_element-Fits q none = Fits-unsupported word
  dup_element-Fits q (some (size, index)) =
      Fits-if word (size == 3 && not q) _ _ (Fits-unsupported word)
        (Fits-named word _ refl (rn-lt word, (rd-lt word, tt)))

  dup_general-Fits : (q : Bool) (o : Option (ℕ × ℕ)) → Fits word (Elements.dup_general word q o)
  unfolding Elements.dup_general named
  dup_general-Fits q none = Fits-unsupported word
  dup_general-Fits q (some (size, index)) =
      Fits-if word (size == 3 && not q) _ _ (Fits-unsupported word)
        (Fits-named word _ refl (rn-lt word, (rd-lt word, tt)))

  ins_general-Fits : (o : Option (ℕ × ℕ)) → Fits word (Elements.ins_general word o)
  unfolding Elements.ins_general named
  ins_general-Fits none = Fits-unsupported word
  ins_general-Fits (some (size, index)) = Fits-named word _ refl (rn-lt word, (rd-lt word, tt))

  ins_element-Fits : (o : Option (ℕ × ℕ)) → Fits word (Elements.ins_element word o)
  unfolding Elements.ins_element named
  ins_element-Fits none = Fits-unsupported word
  ins_element-Fits (some (size, index)) = Fits-named word _ refl (rn-lt word, (rd-lt word, tt))

  mov_to_gpr-Fits :
      (signed q : Bool) (o : Option (ℕ × ℕ)) → Fits word (Elements.mov_to_gpr signed q word o)
  unfolding Elements.mov_to_gpr named
  mov_to_gpr-Fits signed q none = Fits-unsupported word
  mov_to_gpr-Fits signed q (some (size, index)) =
      let valid =
        if signed
        then (if q then leb size 2 else leb size 1)
        else if q
        then size == 3
        else leb size 2 in
      Fits-if word (not valid) _ _ (Fits-unsupported word)
        (Fits-named word _ refl (rn-lt word, (rd-lt word, tt)))

  pub copy-Fits : Fits word (Elements.copy word)
  unfolding Elements.copy named
  copy-Fits =
      let q = field word 30 1 == 1 in
      let at = size_index (field word 16 5) in
      let imm4 = field word 11 4 in
      Fits-if word (field word 29 1 == 1) _ _
        (Fits-if word (not q) _ _ (Fits-unsupported word) (ins_element-Fits at))
        (Fits-if word (imm4 == 0b0000) _ _ (dup_element-Fits q at) (
          Fits-if word (imm4 == 0b0001) _ _ (dup_general-Fits q at) (
            Fits-if word (imm4 == 0b0011 && q) _ _ (ins_general-Fits at) (
              Fits-if word (imm4 == 0b0101) _ _ (mov_to_gpr-Fits true q at) (
                Fits-if word (imm4 == 0b0111) _ _ (mov_to_gpr-Fits false q at)
                  (Fits-unsupported word))))))

  -- The fifth bit of the register that holds an indexed element is apart from the others.
  wide_rm-lt : bit_or (field word 16 4) (field word 20 1 <<< 4) < 32
  wide_rm-lt = omega (
    arith,
    bit_or_join_low 4 (field word 20 1) (field word 16 4) (field-lt word 16 4),
    field-lt word 16 4,
    field-lt word 20 1,
  )

  pub indexed_operand-lt :
      (size : ℕ) (q : Bool) → Ensures (λ (r : ℕ × ℕ). r.1 < 32) (indexed_operand word size q)
  unfolding indexed_operand
  indexed_operand-lt size q =
      Ensures-if (size == 1) _ _ (λ _. Ensures-some (omega (arith, field-lt word 16 4)))
        λ _.
          Ensures-if (size == 2) _ _ (λ _. Ensures-some wide_rm-lt)
            λ _.
              Ensures-if (field word 21 1 == 1 || not q) _ _ (λ _. Ensures-none)
                λ _. Ensures-some wide_rm-lt

  pub indexed-Fits : Fits word (Elements.indexed word)
  unfolding Elements.indexed named
  indexed-Fits =
      let q = field word 30 1 == 1 in
      let size = field word 22 2 in
      let key = 16 * field word 29 1 + field word 12 4 in
      let size_ok =
        if is_fp_key key
        then size == 2 || size == 3
        else if one_of key (0x0e ∷ 0x1e ∷ [])
        then size == 2
        else size == 1 || size == 2 in
      Fits-if word (not (is_indexed key) || not size_ok) _ _ (Fits-unsupported word) (
        Fits-match word (indexed_operand word size q) _ λ r e.
          Fits-named word _ refl
            ((indexed_operand-lt size q).at r e, (rn-lt word, (rd-lt word, tt))))
