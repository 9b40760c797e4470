-- ===== src/Interp/Integer/Total.antt =====
-- The integer executors do not panic on operands in the ranges that the decoder keeps to.
pub mod Sources
use v.Base.{ℕ, ◌+◌, ◌*◌, ◌<◌, ◌≤◌, ◌≡◌, ◌⊎◌, inl, inr, refl, Bool, true, false, ◌&&◌, leb, ltb}
use v.Base.{arith, bit_and, not64, ◌-◌, ◌^◌, Option-cases, lt→ltb}
use v.Base.{Option, some, none, ◌==◌, if◌then◌else◌, ◌>>=◌}
use v.Cpu.Flags.{Flags}
use v.Cpu.State.{CpuState}
use v.Cpu.State.Gpr.{HasRegs, read_gpr_total, write_gpr_total}
use v.Decoder.Insn.{ShiftType}
use v.Interp.Alu.{read, datasize, apply_shift, width_mask}
use v.Interp.Alu.Operands.{read_total}
use v.Interp.Integer.{Succeeds, Outcome, finish, finish-Succeeds}
use v.Interp.Integer.Immediate.{move_wide, add_sub_imm, logical, logical_imm, bitfield, extract}
use v.Interp.Integer.Register.{add_sub_shifted_reg, extend_reg, add_sub_ext_reg, add_sub_carry}
use v.Interp.Integer.Register.{logical_reg}

module _ {cpu : CpuState} (h : HasRegs cpu) where
  flagged-HasRegs : (b : Bool) (f : Flags) → HasRegs (if b then record cpu { flags = f } else cpu)
  flagged-HasRegs true f = record { count = h.count }
  flagged-HasRegs false f = h

  -- A chain that starts by reading an operand.
  pub read-Succeeds :
      (idx : ℕ) (sf sp : Bool) (k : ℕ → Outcome)
      → idx < 32
      → ((a : ℕ) → Succeeds (k a))
      → Succeeds (read cpu idx sf sp >>= k)
  read-Succeeds idx sf sp k lt s = let (a, e) = read_total idx sf sp h lt in rw e (s a)

  pub move_wide_total :
      (sf : Bool) (opc hw imm16 rd : ℕ)
      → (opc ≡ 0) ⊎ (opc ≡ 2) ⊎ (opc ≡ 3)
      → hw < 4
      → rd < 32
      → Succeeds (move_wide cpu sf opc hw imm16 rd)
  unfolding move_wide
  move_wide_total sf opc hw imm16 rd o l r = rw (in_word) (elim o [
    | inl e ↦ rw e (finish-Succeeds rd sf _ false h r)
    | inr (inl e) ↦ rw e (finish-Succeeds rd sf _ false h r)
    | inr (inr e) ↦
        let (a, f) = read_gpr_total rd false h r in rw (e, f) (finish-Succeeds rd sf _ false h r)
  ])
    where
      in_word : ltb (hw * 16) 64 ≡ true
      in_word = ground arith

  pub add_sub_imm_total :
      (sf sub set_flags shift12 : Bool) (imm12 rn rd : ℕ)
      → rn < 32
      → rd < 32
      → Succeeds (add_sub_imm cpu sf sub set_flags shift12 imm12 rn rd)
  unfolding add_sub_imm
  add_sub_imm_total sf sub set_flags shift12 imm12 rn rd n d =
      read-Succeeds rn sf true _ n λ a. finish-Succeeds rd sf _ _ (flagged-HasRegs set_flags _) d

  logical_total : (opc a b : ℕ) → opc < 4 → (r : ℕ) × (logical opc a b ≡ some r)
  unfolding logical
  logical_total opc a b l = elim (Option-cases (logical opc a b)) [
    | inl e ↦ absurd (ground arith)
    | inr e ↦ e
  ]

  pub logical_imm_total :
      (sf : Bool) (opc imm rn rd : ℕ)
      → opc < 4
      → rn < 32
      → rd < 32
      → Succeeds (logical_imm cpu sf opc imm rn rd)
  unfolding logical_imm
  logical_imm_total sf opc imm rn rd o n d = read-Succeeds rn sf false _ n λ a.
      let (r, e) = logical_total opc a imm o in
      rw e (finish-Succeeds rd sf _ _ (flagged-HasRegs (opc == 3) _) d)

  pub bitfield_total :
      (sf : Bool) (opc wmask tmask immr imms rn rd : ℕ)
      → imms < 64
      → rn < 32
      → rd < 32
      → Succeeds (bitfield cpu sf opc wmask tmask immr imms rn rd)
  unfolding bitfield
  bitfield_total sf opc wmask tmask immr imms rn rd i n d =
      read-Succeeds rn sf false _ n
        λ src. read-Succeeds rd sf false _ d λ dst. rw (in_word) (finish-Succeeds rd sf _ false h d)
    where
      in_word : ltb imms 64 ≡ true
      in_word = ground arith

  pub extract_total :
      (sf : Bool) (rm rn lsb rd : ℕ)
      → lsb < datasize sf
      → rm < 32
      → rn < 32
      → rd < 32
      → Succeeds (extract cpu sf rm rn lsb rd)
  unfolding extract
  extract_total sf rm rn lsb rd i m n d = read-Succeeds rm sf false _ m λ a.
      read-Succeeds rn sf false _ n
        λ b. rw (lt→ltb lsb (datasize sf) i) (finish-Succeeds rd sf _ false h d)

  pub add_sub_shifted_reg_total :
      (sf sub set_flags : Bool) (shift : ShiftType) (amount rm rn rd : ℕ)
      → rm < 32
      → rn < 32
      → rd < 32
      → Succeeds (add_sub_shifted_reg cpu sf sub set_flags shift amount rm rn rd)
  unfolding add_sub_shifted_reg
  add_sub_shifted_reg_total sf sub set_flags shift amount rm rn rd m n d =
      read-Succeeds rn sf false _ n λ a.
        read-Succeeds rm sf false _ m
          λ b. finish-Succeeds rd sf _ false (flagged-HasRegs set_flags _) d

  extend_reg_total :
      (rm option shift : ℕ)
      → rm < 32
      → shift < 64
      → (b : ℕ) × (extend_reg cpu rm option shift ≡ some b)
  unfolding extend_reg
  extend_reg_total rm option shift m l =
      let (a, e) = read_gpr_total rm false h m in rw (e, lt→ltb shift 64 l) (_, refl)

  pub add_sub_ext_reg_total :
      (sf sub set_flags : Bool) (option imm3 rm rn rd : ℕ)
      → imm3 ≤ 4
      → rm < 32
      → rn < 32
      → rd < 32
      → Succeeds (add_sub_ext_reg cpu sf sub set_flags option imm3 rm rn rd)
  unfolding add_sub_ext_reg
  add_sub_ext_reg_total sf sub set_flags option imm3 rm rn rd i m n d =
      read-Succeeds rn sf true _ n λ a.
        let (b, e) = extend_reg_total rm option imm3 m (omega arith) in
        rw e (finish-Succeeds rd sf _ _ (flagged-HasRegs set_flags _) d)

  pub add_sub_carry_total :
      (sf sub set_flags : Bool) (rm rn rd : ℕ)
      → rm < 32
      → rn < 32
      → rd < 32
      → Succeeds (add_sub_carry cpu sf sub set_flags rm rn rd)
  unfolding add_sub_carry
  add_sub_carry_total sf sub set_flags rm rn rd m n d = read-Succeeds rn sf false _ n λ a.
      read-Succeeds rm sf false _ m
        λ b. finish-Succeeds rd sf _ false (flagged-HasRegs set_flags _) d

  pub logical_reg_total :
      (sf : Bool) (opc : ℕ) (negate : Bool) (shift : ShiftType) (amount rm rn rd : ℕ)
      → opc < 4
      → rm < 32
      → rn < 32
      → rd < 32
      → Succeeds (logical_reg cpu sf opc negate shift amount rm rn rd)
  unfolding logical_reg
  logical_reg_total sf opc negate shift amount rm rn rd o m n d = read-Succeeds rn sf false _ n λ a.
      read-Succeeds rm sf false _ m λ b.
        let shifted = apply_shift b shift amount sf in
        let operand = if negate then bit_and (not64 shifted) (width_mask sf) else shifted in
        let (r, e) = logical_total opc a operand o in
        rw e (finish-Succeeds rd sf _ _ (flagged-HasRegs (opc == 3) _) d)
