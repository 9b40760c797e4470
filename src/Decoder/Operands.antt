-- ===== src/Decoder/Operands.antt =====
-- What the decoder guarantees of the operands of an integer instruction: each register field is
-- below 32, and each opcode is one that the executors have.
use v.Base.{ℕ, ◌<◌, ◌≤◌, ◌≡◌, ◌⊎◌, inl, inr, refl, Bool, true, false, not, ◌||◌, ◌&&◌, arith}
use v.Base.{leb, ltb, ◌==◌, ◌!=◌, bit_of}
use v.Base.{if◌then◌else◌, Bool-cases, Option, none, some}
use v.Decoder.Insn.{Insn}
use v.Decoder.Fields.{sf, field, field-lt, rd-lt, rn-lt, ra-lt, rm-lt}
use v.Decoder.Bitmask.{decode_bit_masks}
use v.Decoder.DpImm
use v.Decoder.DpReg
use v.Decoder.DpReg.{is_2src, is_3src}

abbrev pub IsInteger : Insn → Type 0
IsInteger (Insn.move_wide sf opc hw imm16 rd) =
    ((opc ≡ 0) ⊎ (opc ≡ 2) ⊎ (opc ≡ 3)) × (hw < 4) × (rd < 32)
IsInteger (Insn.add_sub_imm sf sub set_flags shift12 imm12 rn rd) = (rn < 32) × (rd < 32)
IsInteger (Insn.add_sub_shifted_reg sf sub set_flags shift amount rm rn rd) =
    (rm < 32) × (rn < 32) × (rd < 32)
IsInteger (Insn.add_sub_carry sf sub set_flags rm rn rd) = (rm < 32) × (rn < 32) × (rd < 32)
IsInteger (Insn.add_sub_ext_reg sf sub set_flags option imm3 rm rn rd) =
    (imm3 ≤ 4) × (rm < 32) × (rn < 32) × (rd < 32)
IsInteger (Insn.logical_imm sf opc imm rn rd) = (opc < 4) × (rn < 32) × (rd < 32)
IsInteger (Insn.logical_shifted_reg sf opc negate shift amount rm rn rd) =
    (opc < 4) × (rm < 32) × (rn < 32) × (rd < 32)
IsInteger (Insn.bitfield sf opc wmask tmask immr imms rn rd) = (imms < 64) × (rn < 32) × (rd < 32)
IsInteger (Insn.extract sf rm rn lsb rd) =
    (lsb < (if sf then 64 else 32)) × (rm < 32) × (rn < 32) × (rd < 32)
IsInteger (Insn.cond_select sf op o2 cond rm rn rd) = (rm < 32) × (rn < 32) × (rd < 32)
IsInteger (Insn.cond_compare sf sub is_imm imm_y rm cond nzcv rn) = (rm < 32) × (rn < 32)
IsInteger (Insn.data_proc_1src sf opcode rn rd) = (opcode < 6) × (rn < 32) × (rd < 32)
IsInteger (Insn.data_proc_2src sf opcode rm rn rd) =
    (is_2src opcode sf ≡ true) × (rm < 32) × (rn < 32) × (rd < 32)
IsInteger (Insn.data_proc_3src sf op31 o0 rm ra rn rd) =
    (is_3src op31 sf o0 ≡ true) × (rm < 32) × (ra < 32) × (rn < 32) × (rd < 32)
IsInteger (Insn.pc_rel page imm rd) = rd < 32
IsInteger _ = ⊥

-- A word is refused, or decodes to an integer instruction within its ranges.
abbrev pub Decodes : ℕ → Insn → Type 0
Decodes word insn = (insn ≡ Insn.unsupported word) ⊎ IsInteger insn

module _ (word : ℕ) where
  Decodes-if :
      (b : Bool) (i j : Insn)
      → (b ≡ true → Decodes word i)
      → (b ≡ false → Decodes word j)
      → Decodes word (if b then i else j)
  Decodes-if true i j p q = p refl
  Decodes-if false i j p q = q refl

  refused : Decodes word (Insn.unsupported word)
  refused = inl refl

  move_wide-Decodes : Decodes word (DpImm.move_wide word)
  unfolding DpImm.move_wide
  move_wide-Decodes =
      let found =
        Insn.move_wide (sf word) (field word 29 2) (field word 21 2) (field word 5 16)
          (field word 0 5) in
      let narrow = not (sf word) && leb 2 (field word 21 2) in
      Decodes-if (field word 29 2 == 1) (Insn.unsupported word)
        (if narrow then Insn.unsupported word else found) (λ _. refused)
        λ a.
          Decodes-if narrow (Insn.unsupported word) found (λ _. refused)
            λ b. inr (opcs (field word 29 2) a (field-lt word 29 2), field-lt word 21 2, rd-lt word)
    where
      opcs : (opc : ℕ) → (opc == 1) ≡ false → opc < 4 → (opc ≡ 0) ⊎ (opc ≡ 2) ⊎ (opc ≡ 3)
      opcs opc a lt = elim (Bool-cases (opc == 0)) [
        | inl e ↦ inl (ground arith)
        | inr e ↦ elim (Bool-cases (opc == 2)) [
          | inl f ↦ inr (inl (ground arith))
          | inr f ↦ inr (inr (ground arith))
        ]
      ]

  add_sub_imm-Decodes : Decodes word (DpImm.add_sub_imm word)
  unfolding DpImm.add_sub_imm
  add_sub_imm-Decodes =
      Decodes-if (leb 2 (field word 22 2)) (Insn.unsupported word)
        (Insn.add_sub_imm (sf word) (field word 30 1 == 1) (field word 29 1 == 1)
          (field word 22 2 == 1) (field word 10 12) (field word 5 5) (field word 0 5))
        (λ _. refused) λ b. inr (rn-lt word, rd-lt word)

  logical_imm_of-Decodes : (o : Option (ℕ × ℕ)) → Decodes word (DpImm.logical_imm_of word o)
  unfolding DpImm.logical_imm_of
  logical_imm_of-Decodes none = refused
  logical_imm_of-Decodes (some (mask, tail)) = inr (field-lt word 29 2, rn-lt word, rd-lt word)

  logical_imm-Decodes : Decodes word (DpImm.logical_imm word)
  unfolding DpImm.logical_imm
  logical_imm-Decodes =
      let masks = decode_bit_masks (field word 22 1) (field word 10 6) (field word 16 6) true in
      Decodes-if (not (sf word) && field word 22 1 != 0) (Insn.unsupported word)
        (DpImm.logical_imm_of word masks) (λ _. refused) λ b. logical_imm_of-Decodes masks

  bitfield_of-Decodes : (o : Option (ℕ × ℕ)) → Decodes word (DpImm.bitfield_of word o)
  unfolding DpImm.bitfield_of
  bitfield_of-Decodes none = refused
  bitfield_of-Decodes (some (wmask, tmask)) = inr (field-lt word 10 6, rn-lt word, rd-lt word)

  bitfield-Decodes : Decodes word (DpImm.bitfield word)
  unfolding DpImm.bitfield
  bitfield-Decodes =
      let bitsize : ℕ = if sf word then 64 else 32 in
      let masks = decode_bit_masks (field word 22 1) (field word 10 6) (field word 16 6) false in
      Decodes-if
        (bit_of (sf word) != field word 22 1
          || leb bitsize (field word 16 6)
          || leb bitsize (field word 10 6)
          || ltb 2 (field word 29 2))
        (Insn.unsupported word) (DpImm.bitfield_of word masks) (λ _. refused)
        λ b. bitfield_of-Decodes masks

  extract-Decodes : Decodes word (DpImm.extract word)
  unfolding DpImm.extract
  extract-Decodes =
      let bitsize : ℕ = if sf word then 64 else 32 in
      Decodes-if
        (bit_of (sf word) != field word 22 1
          || field word 29 2 != 0
          || field word 21 1 != 0
          || leb bitsize (field word 10 6))
        (Insn.unsupported word)
        (Insn.extract (sf word) (field word 16 5) (field word 5 5) (field word 10 6)
          (field word 0 5))
        (λ _. refused) λ b. inr (ground arith, rm-lt word, rn-lt word, rd-lt word)

  pc_rel-Decodes : Decodes word (DpImm.pc_rel word)
  unfolding DpImm.pc_rel
  pc_rel-Decodes = inr (rd-lt word)

  -- Every word that the data-processing-immediate decoder is given is refused or decodes to an
  -- instruction whose operands are within the executors' ranges.
  pub dp_imm-Decodes : Decodes word (DpImm.decode word)
  unfolding DpImm.decode
  dp_imm-Decodes = elim (Bool-cases (field word 23 3 == 0 || field word 23 3 == 1)) [
    | inl e ↦ rw e pc_rel-Decodes
    | inr e ↦ rw e (elim (Bool-cases (field word 23 3 == 2)) [
      | inl e ↦ rw e add_sub_imm-Decodes
      | inr e ↦ rw e (elim (Bool-cases (field word 23 3 == 4)) [
        | inl e ↦ rw e logical_imm-Decodes
        | inr e ↦ rw e (elim (Bool-cases (field word 23 3 == 5)) [
          | inl e ↦ rw e move_wide-Decodes
          | inr e ↦ rw e (elim (Bool-cases (field word 23 3 == 6)) [
            | inl e ↦ rw e bitfield-Decodes
            | inr e ↦ rw e (elim (Bool-cases (field word 23 3 == 7)) [
              | inl e ↦ rw e extract-Decodes
              | inr e ↦ rw e (refused)
            ])
          ])
        ])
      ])
    ])
  ]

  add_sub_shifted_reg-Decodes : Decodes word (DpReg.add_sub_shifted_reg word)
  unfolding DpReg.add_sub_shifted_reg
  add_sub_shifted_reg-Decodes = elim (Bool-cases (field word 22 2 == 3)) [
    | inl e ↦ rw e refused
    | inr e ↦ rw e (elim (Bool-cases (not (sf word) && leb 32 (field word 10 6))) [
      | inl e ↦ rw e refused
      | inr e ↦ rw e (inr (rm-lt word, rn-lt word, rd-lt word))
    ])
  ]

  add_sub_ext_reg-Decodes : Decodes word (DpReg.add_sub_ext_reg word)
  unfolding DpReg.add_sub_ext_reg
  add_sub_ext_reg-Decodes = elim (Bool-cases (ltb 4 (field word 10 3))) [
    | inl e ↦ rw e refused
    | inr e ↦ rw e (inr (ground arith, rm-lt word, rn-lt word, rd-lt word))
  ]

  add_sub_carry-Decodes : Decodes word (DpReg.add_sub_carry word)
  unfolding DpReg.add_sub_carry
  add_sub_carry-Decodes = elim (Bool-cases (field word 10 6 != 0)) [
    | inl e ↦ rw e refused
    | inr e ↦ rw e (inr (rm-lt word, rn-lt word, rd-lt word))
  ]

  logical_reg-Decodes : Decodes word (DpReg.logical_reg word)
  unfolding DpReg.logical_reg
  logical_reg-Decodes = elim (Bool-cases (not (sf word) && leb 32 (field word 10 6))) [
    | inl e ↦ rw e refused
    | inr e ↦ rw e (inr (field-lt word 29 2, rm-lt word, rn-lt word, rd-lt word))
  ]

  cond_compare-Decodes : Decodes word (DpReg.cond_compare word)
  unfolding DpReg.cond_compare
  cond_compare-Decodes =
      elim (Bool-cases (field word 29 1 != 1 || field word 10 1 != 0 || field word 4 1 != 0)) [
        | inl e ↦ rw e refused
        | inr e ↦ rw e (inr (rm-lt word, rn-lt word))
      ]

  cond_select-Decodes : Decodes word (DpReg.cond_select word)
  unfolding DpReg.cond_select
  cond_select-Decodes = elim (Bool-cases (field word 11 1 != 0)) [
    | inl e ↦ rw e refused
    | inr e ↦ rw e (inr (rm-lt word, rn-lt word, rd-lt word))
  ]

  data_proc_1src-Decodes : Decodes word (DpReg.data_proc_1src word)
  unfolding DpReg.data_proc_1src
  data_proc_1src-Decodes = elim (Bool-cases (field word 16 5 != 0)) [
    | inl e ↦ rw e refused
    | inr e ↦
        rw e (elim (Bool-cases (ltb 5 (field word 10 6) || field word 10 6 == 3 && not (sf word))) [
          | inl e ↦ rw e refused
          | inr e ↦ rw e (inr (ground arith, rn-lt word, rd-lt word))
        ])
  ]

  data_proc_2src-Decodes : Decodes word (DpReg.data_proc_2src word)
  unfolding DpReg.data_proc_2src
  data_proc_2src-Decodes = elim (Bool-cases (not (is_2src (field word 10 6) (sf word)))) [
    | inl e ↦ rw e refused
    | inr e ↦ rw e (inr (ground arith, rm-lt word, rn-lt word, rd-lt word))
  ]

  data_proc_3src-Decodes : Decodes word (DpReg.data_proc_3src word)
  unfolding DpReg.data_proc_3src
  data_proc_3src-Decodes = elim (Bool-cases (field word 29 2 != 0)) [
    | inl e ↦ rw e refused
    | inr e ↦
        rw e (elim (Bool-cases (not (is_3src (field word 21 3) (sf word) (field word 15 1 == 1)))) [
          | inl e ↦ rw e refused
          | inr e ↦ rw e (inr (ground arith, rm-lt word, ra-lt word, rn-lt word, rd-lt word))
        ])
  ]

  -- Every word that the data-processing-register decoder is given is refused or decodes to an
  -- instruction whose operands are within the executors' ranges.
  pub dp_reg-Decodes : Decodes word (DpReg.decode word)
  unfolding DpReg.decode
  dp_reg-Decodes = elim (Bool-cases (field word 24 5 == 0b01010)) [
    | inl e ↦ rw e logical_reg-Decodes
    | inr e ↦ rw e (elim (Bool-cases (field word 24 5 == 0b01011)) [
      | inl e ↦ rw e (elim (Bool-cases (field word 21 1 == 0)) [
        | inl e ↦ rw e add_sub_shifted_reg-Decodes
        | inr e ↦ rw e (add_sub_ext_reg-Decodes)
      ])
      | inr e ↦ rw e (elim (Bool-cases (field word 24 5 == 0b11011)) [
        | inl e ↦ rw e data_proc_3src-Decodes
        | inr e ↦ rw e (elim (Bool-cases (field word 24 5 == 0b11010)) [
          | inl e ↦ rw e (elim (Bool-cases (field word 21 3 == 0)) [
            | inl e ↦ rw e add_sub_carry-Decodes
            | inr e ↦ rw e (elim (Bool-cases (field word 21 3 == 2)) [
              | inl e ↦ rw e cond_compare-Decodes
              | inr e ↦ rw e (elim (Bool-cases (field word 21 3 == 4)) [
                | inl e ↦ rw e cond_select-Decodes
                | inr e ↦ rw e (elim (Bool-cases (field word 21 3 == 6)) [
                  | inl e ↦ rw e (elim (Bool-cases (field word 30 1 == 1)) [
                    | inl e ↦ rw e data_proc_1src-Decodes
                    | inr e ↦ rw e (data_proc_2src-Decodes)
                  ])
                  | inr e ↦ rw e (refused)
                ])
              ])
            ])
          ])
          | inr e ↦ rw e (refused)
        ])
      ])
    ])
  ]
