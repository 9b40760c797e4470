-- ===== src/Decoder/Insn.antt =====
-- crates/decoder/src/insn.rs: the decoded instructions. A signed displacement is its 64-bit
-- two's-complement pattern.
use v.Base.{ℕ, Bool}

pub data ShiftType : Type 0 where
  lsl : ShiftType
  lsr : ShiftType
  asr : ShiftType
  ror : ShiftType

pub data AddrMode : Type 0 where
  unsigned_imm : (rn imm : ℕ) → AddrMode
  unscaled : (rn imm : ℕ) → AddrMode
  pre_index : (rn imm : ℕ) → AddrMode
  post_index : (rn imm : ℕ) → AddrMode
  reg_offset : (rn rm option shift : ℕ) → AddrMode
  literal : (offset : ℕ) → AddrMode

pub data PairIndex : Type 0 where
  offset : PairIndex
  pre : PairIndex
  post : PairIndex

pub data Insn : Type 0 where
  move_wide : (sf : Bool) (opc hw imm16 rd : ℕ) → Insn
  add_sub_imm : (sf sub set_flags shift12 : Bool) (imm12 rn rd : ℕ) → Insn
  add_sub_shifted_reg : (sf sub set_flags : Bool) (shift : ShiftType) (amount rm rn rd : ℕ) → Insn
  add_sub_carry : (sf sub set_flags : Bool) (rm rn rd : ℕ) → Insn
  add_sub_ext_reg : (sf sub set_flags : Bool) (option imm3 rm rn rd : ℕ) → Insn
  logical_imm : (sf : Bool) (opc imm rn rd : ℕ) → Insn
  logical_shifted_reg :
      (sf : Bool) (opc : ℕ) (negate : Bool) (shift : ShiftType) (amount rm rn rd : ℕ) → Insn
  bitfield : (sf : Bool) (opc wmask tmask immr imms rn rd : ℕ) → Insn
  extract : (sf : Bool) (rm rn lsb rd : ℕ) → Insn
  cond_select : (sf op o2 : Bool) (cond rm rn rd : ℕ) → Insn
  cond_compare : (sf sub is_imm : Bool) (imm_y rm cond nzcv rn : ℕ) → Insn
  data_proc_1src : (sf : Bool) (opcode rn rd : ℕ) → Insn
  data_proc_2src : (sf : Bool) (opcode rm rn rd : ℕ) → Insn
  data_proc_3src : (sf : Bool) (op31 : ℕ) (o0 : Bool) (rm ra rn rd : ℕ) → Insn
  pc_rel : (page : Bool) (imm rd : ℕ) → Insn
  branch_imm : (link : Bool) (offset : ℕ) → Insn
  cond_branch : (cond offset : ℕ) → Insn
  compare_branch : (sf negate : Bool) (rt offset : ℕ) → Insn
  test_branch : (bit : ℕ) (negate : Bool) (rt offset : ℕ) → Insn
  branch_reg : (opc rn : ℕ) → Insn
  load_store : (size : ℕ) (is_load signed dst64 vec unpriv : Bool) (rt : ℕ) (addr : AddrMode) → Insn
  atomic_rmw : (size op rs rn rt : ℕ) → Insn
  compare_swap : (size rs rn rt : ℕ) → Insn
  load_exclusive : (size rt rn : ℕ) → Insn
  store_exclusive : (size rs rt rn : ℕ) → Insn
  load_exclusive_pair : (size rt rt2 rn : ℕ) → Insn
  store_exclusive_pair : (size rs rt rt2 rn : ℕ) → Insn
  compare_swap_pair : (sz rs rn rt : ℕ) → Insn
  load_store_pair :
      (is_load signed width8 vec : Bool) (vesize rt rt2 rn offset : ℕ) (index : PairIndex) → Insn
  fp_data_proc1 : (ftype opcode rn rd : ℕ) → Insn
  fp_data_proc2 : (ftype opcode rm rn rd : ℕ) → Insn
  fp_data_proc3 : (ftype : ℕ) (o1 o0 : Bool) (rm ra rn rd : ℕ) → Insn
  fp_cond_compare : (ftype rm rn cond nzcv : ℕ) (signaling : Bool) → Insn
  fp_compare : (ftype rm rn : ℕ) (cmp_zero signaling : Bool) → Insn
  fp_cond_select : (ftype cond rm rn rd : ℕ) → Insn
  fp_cvt_int : (sf : Bool) (ftype rmode opcode rn rd : ℕ) → Insn
  fp_imm : (ftype imm8 rd : ℕ) → Insn
  fp_cvt_fixed : (sf : Bool) (ftype opcode scale rn rd : ℕ) → Insn
  sys_reg_move : (read : Bool) (key rt : ℕ) → Insn
  msr_imm : (op1 op2 crm : ℕ) → Insn
  svc : (imm16 : ℕ) → Insn
  hvc : (imm16 : ℕ) → Insn
  smc : (imm16 : ℕ) → Insn
  eret : Insn
  simd_three_same : (q u : Bool) (size opcode rm rn rd : ℕ) → Insn
  simd_three_same_fp : (q sz : Bool) (fpopcode rm rn rd : ℕ) → Insn
  simd_three_diff : (q u : Bool) (size opcode rm rn rd : ℕ) → Insn
  simd_indexed : (q u : Bool) (size opcode index rm rn rd : ℕ) → Insn
  simd_table_lookup : (q is_tbx : Bool) (len rm rn rd : ℕ) → Insn
  crypto_aes : (opcode rn rd : ℕ) → Insn
  crypto_sha3 : (opcode rm rn rd : ℕ) → Insn
  crypto_sha2 : (opcode rn rd : ℕ) → Insn
  simd_three_same_extra : (q u : Bool) (size opcode rm rn rd : ℕ) → Insn
  simd_ld_st_multi : (is_load q postidx : Bool) (rm rn rt size rpt selem : ℕ) → Insn
  simd_ld_st_single :
      (is_load replicate postidx : Bool) (rm rn rt size selem index : ℕ) (q : Bool) → Insn
  simd_scalar_three_same : (u : Bool) (size opcode rm rn rd : ℕ) → Insn
  simd_scalar_two_reg_misc : (u : Bool) (size opcode rn rd : ℕ) → Insn
  simd_scalar_pairwise : (u : Bool) (size opcode rn rd : ℕ) → Insn
  simd_scalar_three_diff : (size opcode rm rn rd : ℕ) → Insn
  simd_scalar_copy : (imm5 rn rd : ℕ) → Insn
  simd_scalar_shift_imm : (u : Bool) (immh immb opcode rn rd : ℕ) → Insn
  simd_scalar_indexed : (u : Bool) (size opcode index rm rn rd : ℕ) → Insn
  simd_zip_trn : (q : Bool) (size opcode rm rn rd : ℕ) → Insn
  simd_ext : (q : Bool) (imm4 rm rn rd : ℕ) → Insn
  simd_shift_imm : (q u : Bool) (immh immb opcode rn rd : ℕ) → Insn
  simd_across_lanes : (q u : Bool) (size opcode rn rd : ℕ) → Insn
  simd_two_reg_misc : (q u : Bool) (size opcode rn rd : ℕ) → Insn
  simd_two_reg_misc_fp : (q sz : Bool) (fpop rn rd : ℕ) → Insn
  simd_mod_imm : (q op : Bool) (cmode imm8 rd : ℕ) → Insn
  simd_dup_general : (q : Bool) (size rn rd : ℕ) → Insn
  simd_dup_element : (q : Bool) (size index rn rd : ℕ) → Insn
  simd_ins_general : (size index rn rd : ℕ) → Insn
  simd_ins_element : (size dst src rn rd : ℕ) → Insn
  simd_mov_to_gpr : (signed dst64 : Bool) (size index vn rd : ℕ) → Insn
  nop : Insn
  wfi : Insn
  wfe : Insn
  prfm : Insn
  dc_zva : (rt : ℕ) → Insn
  tlbi : Insn
  ic : Insn
  brk : (imm16 : ℕ) → Insn
  unsupported : (word : ℕ) → Insn
