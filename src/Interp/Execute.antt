-- ===== src/Interp/Execute.antt =====
-- crates/interp/src/execute.rs: the dispatch. The executors of the floating-point instructions and
-- of the vector instructions that compute on lanes are the parameter `others`, and no theorem
-- depends on them.
pub mod Total
pub mod Straight
use v.Base.{◌>>=◌, ℕ, true, Option, none, some}
use v.Cpu.State.{CpuState, flush_tlb}
use v.Decoder.Insn.{Insn}
use v.Interp.Exception.{svc, eret, brk, msr_imm}
use v.Interp.Ldst
use v.Interp.Ldst.Pair
use v.Interp.Ldst.Excl
use v.Interp.Ldst.Cas
use v.Interp.Ldst.Atomic
use v.Interp.Memory.{GuestMem}
use v.Interp.MemAccess.{dc_zva}
use v.Interp.Psci
use v.Interp.Simd.Struct
use v.Interp.Simd.Lanes.{dup_general, dup_element, ins_general, ins_element, mov_to_gpr}
use v.Interp.Simd.Permute.{permute, ext, table_lookup}
use v.Interp.System
use v.Interp.Integer.{Outcome}
use v.Interp.Integer.Immediate.{move_wide, add_sub_imm, logical_imm, bitfield, extract, pc_rel}
use v.Interp.Integer.Register.{add_sub_shifted_reg, add_sub_ext_reg, add_sub_carry, logical_reg}
use v.Interp.Integer.Register.{cond_compare, cond_select}
use v.Interp.Integer.Sources.{data_proc_1src, data_proc_2src, data_proc_3src}
use v.Interp.Integer.Branches.{branch_imm, branch_reg, compare_branch, cond_branch, test_branch}

module _ (others : CpuState → Insn → ℕ → Outcome) where
  -- The arms that touch no memory.
  unfoldable pub execute_core : CpuState → Insn → ℕ → Outcome
  execute_core cpu (Insn.move_wide sf opc hw imm16 rd) pc = move_wide cpu sf opc hw imm16 rd
  execute_core cpu (Insn.add_sub_imm sf sub set_flags shift12 imm12 rn rd) pc =
      add_sub_imm cpu sf sub set_flags shift12 imm12 rn rd
  execute_core cpu (Insn.add_sub_shifted_reg sf sub set_flags shift amount rm rn rd) pc =
      add_sub_shifted_reg cpu sf sub set_flags shift amount rm rn rd
  execute_core cpu (Insn.add_sub_carry sf sub set_flags rm rn rd) pc =
      add_sub_carry cpu sf sub set_flags rm rn rd
  execute_core cpu (Insn.add_sub_ext_reg sf sub set_flags option imm3 rm rn rd) pc =
      add_sub_ext_reg cpu sf sub set_flags option imm3 rm rn rd
  execute_core cpu (Insn.logical_imm sf opc imm rn rd) pc = logical_imm cpu sf opc imm rn rd
  execute_core cpu (Insn.logical_shifted_reg sf opc negate shift amount rm rn rd) pc =
      logical_reg cpu sf opc negate shift amount rm rn rd
  execute_core cpu (Insn.bitfield sf opc wmask tmask immr imms rn rd) pc =
      bitfield cpu sf opc wmask tmask immr imms rn rd
  execute_core cpu (Insn.extract sf rm rn lsb rd) pc = extract cpu sf rm rn lsb rd
  execute_core cpu (Insn.cond_select sf op o2 cond rm rn rd) pc =
      cond_select cpu sf op o2 cond rm rn rd
  execute_core cpu (Insn.cond_compare sf sub is_imm imm_y rm cond nzcv rn) pc =
      cond_compare cpu sf sub is_imm imm_y rm cond nzcv rn
  execute_core cpu (Insn.data_proc_1src sf opcode rn rd) pc = data_proc_1src cpu sf opcode rn rd
  execute_core cpu (Insn.data_proc_2src sf opcode rm rn rd) pc =
      data_proc_2src cpu sf opcode rm rn rd
  execute_core cpu (Insn.data_proc_3src sf op31 o0 rm ra rn rd) pc =
      data_proc_3src cpu sf op31 o0 rm ra rn rd
  execute_core cpu (Insn.pc_rel page imm rd) pc = pc_rel cpu page imm rd pc
  execute_core cpu (Insn.branch_imm link offset) pc = branch_imm cpu link offset pc
  execute_core cpu (Insn.cond_branch cond offset) pc = cond_branch cpu cond offset pc
  execute_core cpu (Insn.compare_branch sf negate rt offset) pc =
      compare_branch cpu sf negate rt offset pc
  execute_core cpu (Insn.test_branch bit negate rt offset) pc =
      test_branch cpu bit negate rt offset pc
  execute_core cpu (Insn.branch_reg opc rn) pc = branch_reg cpu opc rn pc
  execute_core cpu (Insn.sys_reg_move read key rt) pc = System.exec cpu read key rt
  execute_core cpu (Insn.msr_imm op1 op2 crm) pc = some (msr_imm cpu op1 op2 crm)
  execute_core cpu (Insn.svc imm16) pc = some (svc cpu imm16 pc)
  execute_core cpu (Insn.simd_dup_general q size rn rd) pc = dup_general cpu q size rn rd
  execute_core cpu (Insn.simd_dup_element q size index rn rd) pc =
      dup_element cpu q size index rn rd
  execute_core cpu (Insn.simd_ins_general size index rn rd) pc = ins_general cpu size index rn rd
  execute_core cpu (Insn.simd_ins_element size dst src rn rd) pc =
      ins_element cpu size dst src rn rd
  execute_core cpu (Insn.simd_mov_to_gpr signed dst64 size index vn rd) pc =
      mov_to_gpr cpu signed dst64 size index vn rd
  execute_core cpu (Insn.simd_zip_trn q size opcode rm rn rd) pc =
      permute cpu q size opcode rm rn rd
  execute_core cpu (Insn.simd_ext q imm4 rm rn rd) pc = ext cpu q imm4 rm rn rd
  execute_core cpu (Insn.simd_table_lookup q is_tbx len rm rn rd) pc =
      table_lookup cpu q is_tbx len rm rn rd
  execute_core cpu Insn.eret pc = some (eret cpu)
  execute_core cpu (Insn.brk imm16) pc = some (brk cpu imm16 pc)
  execute_core cpu (Insn.hvc imm16) pc = do cpu' ← Psci.call cpu; some (cpu', none)
  execute_core cpu (Insn.smc imm16) pc = do cpu' ← Psci.call cpu; some (cpu', none)
  execute_core cpu Insn.tlbi pc = some (flush_tlb cpu, none)
  execute_core cpu Insn.ic pc = some (record cpu { ic_inval = true }, none)
  execute_core cpu Insn.nop pc = some (cpu, none)
  execute_core cpu Insn.prfm pc = some (cpu, none)
  execute_core cpu Insn.wfi pc = some (record cpu { wfi = true }, none)
  execute_core cpu Insn.wfe pc = some (record cpu { wfi = true }, none)
  execute_core cpu (Insn.unsupported word) pc = none
  execute_core cpu insn pc = others cpu insn pc

-- What an arm leaves that touches memory and has no target, and one that touches none.
unfoldable pub sequential {ℓ} :
    {Mem : Type ℓ} → Option (CpuState × Mem) → Option (CpuState × Option ℕ × Mem)
sequential o = do (cpu, mem) ← o; some (cpu, none, mem)

unfoldable pub beside {ℓ} : {Mem : Type ℓ} → Mem → Outcome → Option (CpuState × Option ℕ × Mem)
beside mem o = do (cpu, next) ← o; some (cpu, next, mem)

module _ (M : GuestMem) (others : CpuState → Insn → ℕ → Outcome) where
  open M use {Mem}

  unfoldable pub execute : CpuState → Mem → Insn → ℕ → Option (CpuState × Option ℕ × Mem)
  unfolding sequential beside
  execute cpu mem (Insn.load_store size is_load signed dst64 vec unpriv rt addr) pc =
      sequential (Ldst.exec M cpu mem size is_load signed dst64 vec unpriv rt addr pc)
  execute cpu mem (Insn.load_store_pair is_load signed width8 vec vesize rt rt2 rn offset index)
        pc =
      sequential (Pair.exec M cpu mem is_load signed width8 vec vesize rt rt2 rn offset index)
  execute cpu mem (Insn.atomic_rmw size op rs rn rt) pc =
      sequential (Atomic.exec M cpu mem size op rs rn rt)
  execute cpu mem (Insn.compare_swap size rs rn rt) pc =
      sequential (Cas.exec M cpu mem size rs rn rt)
  execute cpu mem (Insn.load_exclusive size rt rn) pc = sequential (Excl.load M cpu mem size rt rn)
  execute cpu mem (Insn.store_exclusive size rs rt rn) pc =
      sequential (Excl.store M cpu mem size rs rt rn)
  execute cpu mem (Insn.load_exclusive_pair size rt rt2 rn) pc =
      sequential (Excl.load_pair M cpu mem size rt rt2 rn)
  execute cpu mem (Insn.store_exclusive_pair size rs rt rt2 rn) pc =
      sequential (Excl.store_pair M cpu mem size rs rt rt2 rn)
  execute cpu mem (Insn.compare_swap_pair sz rs rn rt) pc =
      sequential (Cas.cas_pair M cpu mem sz rs rn rt)
  execute cpu mem (Insn.simd_ld_st_multi is_load q postidx rm rn rt size rpt selem) pc =
      sequential (Struct.multi M cpu mem is_load q postidx rm rn rt size rpt selem)
  execute cpu mem (Insn.simd_ld_st_single is_load replicate postidx rm rn rt size selem index q)
        pc =
      sequential (Struct.single M cpu mem is_load replicate postidx rm rn rt size selem index q)
  execute cpu mem (Insn.dc_zva rt) pc = sequential (dc_zva M cpu mem rt)
  execute cpu mem insn pc = beside mem (execute_core others cpu insn pc)
