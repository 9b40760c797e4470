-- ===== src/Interp/Execute/Total.antt =====
-- What the data-processing decoders accept, the interpreter executes without a panic.
use v.Base.{refl, Option, some, ℕ, ◌≡◌, ◌⊎◌, inl, inr, false, true, Bool, ◌<◌}
use v.Cpu.State.{CpuState}
use v.Cpu.State.Gpr.{HasRegs}
use v.Decoder.Insn.{Insn}
use v.Decoder.DpImm
use v.Decoder.DpReg
use v.Decoder.Operands.{IsInteger, Decodes, dp_imm-Decodes, dp_reg-Decodes}
use v.Interp.Integer.{Outcome, Succeeds, finish-Succeeds}
use v.Interp.Integer.Immediate.{pc_rel}
use v.Interp.Integer.Total.{move_wide_total, add_sub_imm_total, logical_imm_total, bitfield_total}
use v.Interp.Integer.Total.{extract_total, add_sub_shifted_reg_total, add_sub_ext_reg_total}
use v.Interp.Integer.Total.{add_sub_carry_total, logical_reg_total}
use v.Interp.Integer.Total.Sources.{cond_compare_total, cond_select_total, data_proc_1src_total}
use v.Interp.Integer.Total.Sources.{data_proc_2src_total, data_proc_3src_total}
use v.Interp.Memory.{GuestMem}
use v.Interp.Execute.{execute, execute_core, beside}

module _ (others : CpuState → Insn → ℕ → Outcome) {cpu : CpuState} (h : HasRegs cpu) (pc : ℕ) where
  pc_rel_total : (page : Bool) (imm rd : ℕ) → rd < 32 → Succeeds (pc_rel cpu page imm rd pc)
  unfolding pc_rel
  pc_rel_total page imm rd d = finish-Succeeds rd true _ false h d

  execute_core-Succeeds :
      (insn : Insn) → IsInteger insn → Succeeds (execute_core others cpu insn pc)
  unfolding execute_core
  execute_core-Succeeds (Insn.move_wide sf opc hw imm16 rd) w =
      move_wide_total h sf opc hw imm16 rd w.0 w.1 w.2
  execute_core-Succeeds (Insn.add_sub_imm sf sub set_flags shift12 imm12 rn rd) w =
      add_sub_imm_total h sf sub set_flags shift12 imm12 rn rd w.0 w.1
  execute_core-Succeeds (Insn.add_sub_shifted_reg sf sub set_flags shift amount rm rn rd) w =
      add_sub_shifted_reg_total h sf sub set_flags shift amount rm rn rd w.0 w.1 w.2
  execute_core-Succeeds (Insn.add_sub_carry sf sub set_flags rm rn rd) w =
      add_sub_carry_total h sf sub set_flags rm rn rd w.0 w.1 w.2
  execute_core-Succeeds (Insn.add_sub_ext_reg sf sub set_flags option imm3 rm rn rd) w =
      add_sub_ext_reg_total h sf sub set_flags option imm3 rm rn rd w.0 w.1 w.2 w.3
  execute_core-Succeeds (Insn.logical_imm sf opc imm rn rd) w =
      logical_imm_total h sf opc imm rn rd w.0 w.1 w.2
  execute_core-Succeeds (Insn.logical_shifted_reg sf opc negate shift amount rm rn rd) w =
      logical_reg_total h sf opc negate shift amount rm rn rd w.0 w.1 w.2 w.3
  execute_core-Succeeds (Insn.bitfield sf opc wmask tmask immr imms rn rd) w =
      bitfield_total h sf opc wmask tmask immr imms rn rd w.0 w.1 w.2
  execute_core-Succeeds (Insn.extract sf rm rn lsb rd) w =
      extract_total h sf rm rn lsb rd w.0 w.1 w.2 w.3
  execute_core-Succeeds (Insn.cond_select sf op o2 cond rm rn rd) w =
      cond_select_total h sf op o2 cond rm rn rd w.0 w.1 w.2
  execute_core-Succeeds (Insn.cond_compare sf sub is_imm imm_y rm cond nzcv rn) w =
      cond_compare_total h sf sub is_imm imm_y rm cond nzcv rn w.0 w.1
  execute_core-Succeeds (Insn.data_proc_1src sf opcode rn rd) w =
      data_proc_1src_total h sf opcode rn rd w.0 w.1 w.2
  execute_core-Succeeds (Insn.data_proc_2src sf opcode rm rn rd) w =
      data_proc_2src_total h sf opcode rm rn rd w.0 w.1 w.2 w.3
  execute_core-Succeeds (Insn.data_proc_3src sf op31 o0 rm ra rn rd) w =
      data_proc_3src_total h sf op31 o0 rm ra rn rd w.0 w.1 w.2 w.3 w.4
  execute_core-Succeeds (Insn.pc_rel page imm rd) w = pc_rel_total page imm rd w
  execute_core-Succeeds _ w = elim w [ ]

-- The outcome is a state with all its registers, and the memory as it was.
abbrev pub SucceedsOn {ℓ} : {Mem : Type ℓ} → Mem → Option (CpuState × Option ℕ × Mem) → Type ℓ
SucceedsOn mem o = (cpu : CpuState) × (next : Option ℕ) × (o ≡ some (cpu, next, mem)) × HasRegs cpu

module _ (M : GuestMem) (others : CpuState → Insn → ℕ → Outcome) {cpu : CpuState} (h : HasRegs cpu)
    (mem : M.Mem) (pc : ℕ) where
  beside-SucceedsOn : (o : Outcome) → Succeeds o → SucceedsOn mem (beside mem o)
  unfolding beside
  beside-SucceedsOn o (cpu', next, e, h') = (cpu', next, rw e refl, h')

  execute-SucceedsOn :
      (insn : Insn) → IsInteger insn → SucceedsOn mem (execute M others cpu mem insn pc)
  unfolding execute
  execute-SucceedsOn (Insn.move_wide sf opc hw imm16 rd) w =
      beside-SucceedsOn _ (execute_core-Succeeds others h pc _ w)
  execute-SucceedsOn (Insn.add_sub_imm sf sub set_flags shift12 imm12 rn rd) w =
      beside-SucceedsOn _ (execute_core-Succeeds others h pc _ w)
  execute-SucceedsOn (Insn.add_sub_shifted_reg sf sub set_flags shift amount rm rn rd) w =
      beside-SucceedsOn _ (execute_core-Succeeds others h pc _ w)
  execute-SucceedsOn (Insn.add_sub_carry sf sub set_flags rm rn rd) w =
      beside-SucceedsOn _ (execute_core-Succeeds others h pc _ w)
  execute-SucceedsOn (Insn.add_sub_ext_reg sf sub set_flags option imm3 rm rn rd) w =
      beside-SucceedsOn _ (execute_core-Succeeds others h pc _ w)
  execute-SucceedsOn (Insn.logical_imm sf opc imm rn rd) w =
      beside-SucceedsOn _ (execute_core-Succeeds others h pc _ w)
  execute-SucceedsOn (Insn.logical_shifted_reg sf opc negate shift amount rm rn rd) w =
      beside-SucceedsOn _ (execute_core-Succeeds others h pc _ w)
  execute-SucceedsOn (Insn.bitfield sf opc wmask tmask immr imms rn rd) w =
      beside-SucceedsOn _ (execute_core-Succeeds others h pc _ w)
  execute-SucceedsOn (Insn.extract sf rm rn lsb rd) w =
      beside-SucceedsOn _ (execute_core-Succeeds others h pc _ w)
  execute-SucceedsOn (Insn.cond_select sf op o2 cond rm rn rd) w =
      beside-SucceedsOn _ (execute_core-Succeeds others h pc _ w)
  execute-SucceedsOn (Insn.cond_compare sf sub is_imm imm_y rm cond nzcv rn) w =
      beside-SucceedsOn _ (execute_core-Succeeds others h pc _ w)
  execute-SucceedsOn (Insn.data_proc_1src sf opcode rn rd) w =
      beside-SucceedsOn _ (execute_core-Succeeds others h pc _ w)
  execute-SucceedsOn (Insn.data_proc_2src sf opcode rm rn rd) w =
      beside-SucceedsOn _ (execute_core-Succeeds others h pc _ w)
  execute-SucceedsOn (Insn.data_proc_3src sf op31 o0 rm ra rn rd) w =
      beside-SucceedsOn _ (execute_core-Succeeds others h pc _ w)
  execute-SucceedsOn (Insn.pc_rel page imm rd) w =
      beside-SucceedsOn _ (execute_core-Succeeds others h pc _ w)
  execute-SucceedsOn _ w = elim w [ ]

  execute-Decodes :
      (word : ℕ) (insn : Insn)
      → Decodes word insn
      → (insn ≡ Insn.unsupported word) ⊎ SucceedsOn mem (execute M others cpu mem insn pc)
  execute-Decodes word insn (inl e) = inl e
  execute-Decodes word insn (inr w) = inr (execute-SucceedsOn insn w)

  -- With all registers present, every word of the data-processing-immediate class is refused by
  -- the decoder or executes without a panic to a state with all its registers, the memory being as
  -- it was.
  pub execute-dp_imm :
      (word : ℕ)
      → (DpImm.decode word ≡ Insn.unsupported word)
        ⊎ SucceedsOn mem (execute M others cpu mem (DpImm.decode word) pc)
  execute-dp_imm word = execute-Decodes word (DpImm.decode word) (dp_imm-Decodes word)

  -- With all registers present, every word of the data-processing-register class is refused by
  -- the decoder or executes without a panic to a state with all its registers, the memory being as
  -- it was.
  pub execute-dp_reg :
      (word : ℕ)
      → (DpReg.decode word ≡ Insn.unsupported word)
        ⊎ SucceedsOn mem (execute M others cpu mem (DpReg.decode word) pc)
  execute-dp_reg word = execute-Decodes word (DpReg.decode word) (dp_reg-Decodes word)
