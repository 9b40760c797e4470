-- ===== src/Decoder/Registers.antt =====
-- The registers that an instruction names, whatever its class: the executors index the register
-- files with them.
pub mod DpImm
pub mod DpReg
pub mod Branch
pub mod Fp
pub mod Lanes
pub mod Elements
pub mod Scalar
pub mod Neon
pub mod Memory
pub mod Whole
use v.Base.{ℕ, ◌+◌, ◌||◌, ◌<◌, ◌≡◌, refl, Bool, true, false, Option, none, some, List, [], ◌∷◌}
use v.Base.{◌==◌, arith}
use v.Base.{◌⊎◌, inl, inr, Bool-cases, if◌then◌else◌, eq→==}
use v.Decoder.Insn.{Insn, AddrMode}
use v.Decoder.Fields.{field, rd-lt, rn-lt, ra-lt, rm-lt}

abbrev pub address_registers : AddrMode → List ℕ
address_registers (AddrMode.unsigned_imm rn imm) = rn ∷ []
address_registers (AddrMode.unscaled rn imm) = rn ∷ []
address_registers (AddrMode.pre_index rn imm) = rn ∷ []
address_registers (AddrMode.post_index rn imm) = rn ∷ []
address_registers (AddrMode.reg_offset rn rm option shift) = rn ∷ rm ∷ []
address_registers (AddrMode.literal offset) = []

-- The registers that the fields of an instruction name, general-purpose and vector.
unfoldable pub named : Insn → List ℕ
named (Insn.move_wide sf opc hw imm16 rd) = rd ∷ []
named (Insn.add_sub_imm sf sub set_flags shift12 imm12 rn rd) = rn ∷ rd ∷ []
named (Insn.add_sub_shifted_reg sf sub set_flags shift amount rm rn rd) = rm ∷ rn ∷ rd ∷ []
named (Insn.add_sub_carry sf sub set_flags rm rn rd) = rm ∷ rn ∷ rd ∷ []
named (Insn.add_sub_ext_reg sf sub set_flags option imm3 rm rn rd) = rm ∷ rn ∷ rd ∷ []
named (Insn.logical_imm sf opc imm rn rd) = rn ∷ rd ∷ []
named (Insn.logical_shifted_reg sf opc negate shift amount rm rn rd) = rm ∷ rn ∷ rd ∷ []
named (Insn.bitfield sf opc wmask tmask immr imms rn rd) = rn ∷ rd ∷ []
named (Insn.extract sf rm rn lsb rd) = rm ∷ rn ∷ rd ∷ []
named (Insn.cond_select sf op o2 cond rm rn rd) = rm ∷ rn ∷ rd ∷ []
named (Insn.cond_compare sf sub is_imm imm_y rm cond nzcv rn) = rm ∷ rn ∷ []
named (Insn.data_proc_1src sf opcode rn rd) = rn ∷ rd ∷ []
named (Insn.data_proc_2src sf opcode rm rn rd) = rm ∷ rn ∷ rd ∷ []
named (Insn.data_proc_3src sf op31 o0 rm ra rn rd) = rm ∷ ra ∷ rn ∷ rd ∷ []
named (Insn.pc_rel page imm rd) = rd ∷ []
named (Insn.compare_branch sf negate rt offset) = rt ∷ []
named (Insn.test_branch bit negate rt offset) = rt ∷ []
named (Insn.branch_reg opc rn) = rn ∷ []
named (Insn.load_store size is_load signed dst64 vec unpriv rt addr) = rt ∷ address_registers addr
named (Insn.atomic_rmw size op rs rn rt) = rs ∷ rn ∷ rt ∷ []
named (Insn.compare_swap size rs rn rt) = rs ∷ rn ∷ rt ∷ []
named (Insn.load_exclusive size rt rn) = rt ∷ rn ∷ []
named (Insn.store_exclusive size rs rt rn) = rs ∷ rt ∷ rn ∷ []
named (Insn.load_exclusive_pair size rt rt2 rn) = rt ∷ rt2 ∷ rn ∷ []
named (Insn.store_exclusive_pair size rs rt rt2 rn) = rs ∷ rt ∷ rt2 ∷ rn ∷ []
named (Insn.compare_swap_pair sz rs rn rt) = rs ∷ rn ∷ rt ∷ []
named (Insn.load_store_pair is_load signed width8 vec vesize rt rt2 rn offset index) =
    rt ∷ rt2 ∷ rn ∷ []
named (Insn.fp_data_proc1 ftype opcode rn rd) = rn ∷ rd ∷ []
named (Insn.fp_data_proc2 ftype opcode rm rn rd) = rm ∷ rn ∷ rd ∷ []
named (Insn.fp_data_proc3 ftype o1 o0 rm ra rn rd) = rm ∷ ra ∷ rn ∷ rd ∷ []
named (Insn.fp_cond_compare ftype rm rn cond nzcv signaling) = rm ∷ rn ∷ []
named (Insn.fp_compare ftype rm rn cmp_zero signaling) = rm ∷ rn ∷ []
named (Insn.fp_cond_select ftype cond rm rn rd) = rm ∷ rn ∷ rd ∷ []
named (Insn.fp_cvt_int sf ftype rmode opcode rn rd) = rn ∷ rd ∷ []
named (Insn.fp_imm ftype imm8 rd) = rd ∷ []
named (Insn.fp_cvt_fixed sf ftype opcode scale rn rd) = rn ∷ rd ∷ []
named (Insn.sys_reg_move read key rt) = rt ∷ []
named (Insn.simd_three_same q u size opcode rm rn rd) = rm ∷ rn ∷ rd ∷ []
named (Insn.simd_three_same_fp q sz fpopcode rm rn rd) = rm ∷ rn ∷ rd ∷ []
named (Insn.simd_three_diff q u size opcode rm rn rd) = rm ∷ rn ∷ rd ∷ []
named (Insn.simd_indexed q u size opcode index rm rn rd) = rm ∷ rn ∷ rd ∷ []
named (Insn.simd_table_lookup q is_tbx len rm rn rd) = rm ∷ rn ∷ rd ∷ []
named (Insn.crypto_aes opcode rn rd) = rn ∷ rd ∷ []
named (Insn.crypto_sha3 opcode rm rn rd) = rm ∷ rn ∷ rd ∷ []
named (Insn.crypto_sha2 opcode rn rd) = rn ∷ rd ∷ []
named (Insn.simd_three_same_extra q u size opcode rm rn rd) = rm ∷ rn ∷ rd ∷ []
named (Insn.simd_ld_st_multi is_load q postidx rm rn rt size rpt selem) = rm ∷ rn ∷ rt ∷ []
named (Insn.simd_ld_st_single is_load replicate postidx rm rn rt size selem index q) =
    rm ∷ rn ∷ rt ∷ []
named (Insn.simd_scalar_three_same u size opcode rm rn rd) = rm ∷ rn ∷ rd ∷ []
named (Insn.simd_scalar_two_reg_misc u size opcode rn rd) = rn ∷ rd ∷ []
named (Insn.simd_scalar_pairwise u size opcode rn rd) = rn ∷ rd ∷ []
named (Insn.simd_scalar_three_diff size opcode rm rn rd) = rm ∷ rn ∷ rd ∷ []
named (Insn.simd_scalar_copy imm5 rn rd) = rn ∷ rd ∷ []
named (Insn.simd_scalar_shift_imm u immh immb opcode rn rd) = rn ∷ rd ∷ []
named (Insn.simd_scalar_indexed u size opcode index rm rn rd) = rm ∷ rn ∷ rd ∷ []
named (Insn.simd_zip_trn q size opcode rm rn rd) = rm ∷ rn ∷ rd ∷ []
named (Insn.simd_ext q imm4 rm rn rd) = rm ∷ rn ∷ rd ∷ []
named (Insn.simd_shift_imm q u immh immb opcode rn rd) = rn ∷ rd ∷ []
named (Insn.simd_across_lanes q u size opcode rn rd) = rn ∷ rd ∷ []
named (Insn.simd_two_reg_misc q u size opcode rn rd) = rn ∷ rd ∷ []
named (Insn.simd_two_reg_misc_fp q sz fpop rn rd) = rn ∷ rd ∷ []
named (Insn.simd_mod_imm q op cmode imm8 rd) = rd ∷ []
named (Insn.simd_dup_general q size rn rd) = rn ∷ rd ∷ []
named (Insn.simd_dup_element q size index rn rd) = rn ∷ rd ∷ []
named (Insn.simd_ins_general size index rn rd) = rn ∷ rd ∷ []
named (Insn.simd_ins_element size dst src rn rd) = rn ∷ rd ∷ []
named (Insn.simd_mov_to_gpr signed dst64 size index vn rd) = vn ∷ rd ∷ []
named (Insn.dc_zva rt) = rt ∷ []
named _ = []

-- The operands that are no field: the second register of each of the two pairs of a CASP.
abbrev pub implied : Insn → List ℕ
implied (Insn.compare_swap_pair sz rs rn rt) = (rs + 1) ∷ (rt + 1) ∷ []
implied _ = []

-- A CASP with a pair that starts at register 31, which has no second register.
abbrev pub overruns : Insn → Bool
overruns (Insn.compare_swap_pair sz rs rn rt) = rs == 31 || rt == 31
overruns _ = false

abbrev pub AllBelow : List ℕ → Type 0
AllBelow [] = Unit {0}
AllBelow (r ∷ rest) = (r < 32) × AllBelow rest

-- A refusal carries the word itself.
abbrev pub is_own : ℕ → Insn → Bool
is_own word (Insn.unsupported w) = w == word
is_own word _ = true

pub record Fits (word : ℕ) (insn : Insn) : Type 0 where
  pub below : AllBelow (named insn)
  pub own : is_own word insn ≡ true

-- The named registers are in range, and so are the implied ones but for a pair at register 31.
pub record InRange (word : ℕ) (insn : Insn) : Type 0 where
  pub fields : AllBelow (named insn)
  pub pairs : AllBelow (implied insn) ⊎ (overruns insn ≡ true)
  pub own : is_own word insn ≡ true

pairs_in_range :
    (insn : Insn) → AllBelow (named insn) → AllBelow (implied insn) ⊎ (overruns insn ≡ true)
unfolding named
pairs_in_range (Insn.compare_swap_pair sz rs rn rt) h = elim (Bool-cases (rs == 31 || rt == 31)) [
  | inl over ↦ inr over
  | inr within ↦ inl (ground arith, (ground arith, tt))
]
pairs_in_range _ h = inl tt

pub Fits-InRange : {word : ℕ} {insn : Insn} → Fits word insn → InRange word insn
Fits-InRange {word} {insn} h = record {
  fields = h.below;
  pairs = pairs_in_range insn h.below;
  own = h.own;
}

module _ (word : ℕ) where
  pub Fits-if : (b : Bool) (i j : Insn) → Fits word i → Fits word j → Fits word (if b then i else j)
  Fits-if true i j p q = p
  Fits-if false i j p q = q

  pub Fits-unsupported : Fits word (Insn.unsupported word)
  unfolding named
  Fits-unsupported = record { below = tt; own = eq→== word word refl }

  -- The instruction may use what the computed operand is.
  pub Fits-match {ℓ} :
      {A : Type ℓ} (o : Option A) (f : A → Insn)
      → ((a : A) → o ≡ some a → Fits word (f a))
      → Fits word (elim o [ some a ↦ f a | none ↦ Insn.unsupported word ])
  Fits-match none f h = Fits-unsupported
  Fits-match (some a) f h = h a refl

  -- An instruction that is no refusal.
  pub Fits-named : (insn : Insn) → is_own word insn ≡ true → AllBelow (named insn) → Fits word insn
  Fits-named insn o b = record { below = b; own = o }
