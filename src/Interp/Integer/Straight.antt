-- ===== src/Interp/Integer/Straight.antt =====
-- The integer executors that return no target.
use v.Base.{ℕ, ◌*◌, ◌≡◌, refl, Bool, true, false, not, Option, none, some, ◌!=◌, leb, ltb}
use v.Base.{◌&&◌}
use v.Base.{if◌then◌else◌}
use v.Base.Ensures.{Ensures, Ensures-some, Ensures-if, Ensures-check, Ensures-after}
use v.Cpu.State.{CpuState}
use v.Interp.Alu.{read, write, eval_cond, datasize}
use v.Interp.Integer.{Outcome, finish}
use v.Decoder.Insn.{ShiftType}
use v.Interp.Integer.Immediate.{move_wide, add_sub_imm, logical, logical_imm, bitfield, extract}
use v.Interp.Integer.Immediate.{pc_rel}
use v.Interp.Integer.Register.{add_sub_shifted_reg, add_sub_ext_reg, add_sub_carry, logical_reg}
use v.Interp.Integer.Register.{cond_compare, cond_select, extend_reg}
use v.Interp.Integer.Sources.{data_proc_1src, data_proc_2src, data_proc_3src}

-- The outcome has no target: control goes on to the next word.
abbrev pub Falls : Outcome → Type 0
Falls = Ensures (λ (r : CpuState × Option ℕ). r.1 ≡ none)

pub Falls-none : (cpu : CpuState) → Falls (some (cpu, none))
Falls-none cpu = Ensures-some refl

pub finish-Falls :
    (cpu : CpuState) (rd : ℕ) (sf : Bool) (result : ℕ) (sp : Bool)
    → Falls (finish cpu rd sf result sp)
unfolding finish
finish-Falls cpu rd sf result sp = Ensures-after (write cpu rd sf result sp) _ λ c e. Falls-none c

pub move_wide-Falls :
    (cpu : CpuState) (sf : Bool) (opc hw imm16 rd : ℕ) → Falls (move_wide cpu sf opc hw imm16 rd)
unfolding move_wide
move_wide-Falls cpu sf opc hw imm16 rd =
    Ensures-check (ltb (hw * 16) 64) _
      λ fits. Ensures-after _ _ λ r e. finish-Falls cpu rd sf r false

pub add_sub_imm-Falls :
    (cpu : CpuState) (sf sub set_flags shift12 : Bool) (imm12 rn rd : ℕ)
    → Falls (add_sub_imm cpu sf sub set_flags shift12 imm12 rn rd)
unfolding add_sub_imm
add_sub_imm-Falls cpu sf sub set_flags shift12 imm12 rn rd =
    Ensures-after (read cpu rn sf true) _ λ a e. finish-Falls _ rd sf _ (not set_flags)

pub logical_imm-Falls :
    (cpu : CpuState) (sf : Bool) (opc imm rn rd : ℕ) → Falls (logical_imm cpu sf opc imm rn rd)
unfolding logical_imm
logical_imm-Falls cpu sf opc imm rn rd =
    Ensures-after (read cpu rn sf false) _
      λ a e. Ensures-after (logical opc a imm) _ λ r e'. finish-Falls _ rd sf r (opc != 3)

pub bitfield-Falls :
    (cpu : CpuState) (sf : Bool) (opc wmask tmask immr imms rn rd : ℕ)
    → Falls (bitfield cpu sf opc wmask tmask immr imms rn rd)
unfolding bitfield
bitfield-Falls cpu sf opc wmask tmask immr imms rn rd =
    Ensures-after (read cpu rn sf false) _ λ src e.
      Ensures-after (read cpu rd sf false) _
        λ dst e'. Ensures-check (ltb imms 64) _ λ fits. finish-Falls cpu rd sf _ false

pub extract-Falls :
    (cpu : CpuState) (sf : Bool) (rm rn lsb rd : ℕ) → Falls (extract cpu sf rm rn lsb rd)
unfolding extract
extract-Falls cpu sf rm rn lsb rd = Ensures-after (read cpu rm sf false) _ λ m e.
    Ensures-after (read cpu rn sf false) _
      λ n e'. Ensures-check (ltb lsb (datasize sf)) _ λ fits. finish-Falls cpu rd sf _ false

pub pc_rel-Falls :
    (cpu : CpuState) (page : Bool) (imm rd pc : ℕ) → Falls (pc_rel cpu page imm rd pc)
unfolding pc_rel
pc_rel-Falls cpu page imm rd pc = finish-Falls cpu rd true _ false

pub add_sub_shifted_reg-Falls :
    (cpu : CpuState) (sf sub set_flags : Bool) (shift : ShiftType) (amount rm rn rd : ℕ)
    → Falls (add_sub_shifted_reg cpu sf sub set_flags shift amount rm rn rd)
unfolding add_sub_shifted_reg
add_sub_shifted_reg-Falls cpu sf sub set_flags shift amount rm rn rd =
    Ensures-after (read cpu rn sf false) _
      λ a e. Ensures-after (read cpu rm sf false) _ λ m e'. finish-Falls _ rd sf _ false

pub add_sub_ext_reg-Falls :
    (cpu : CpuState) (sf sub set_flags : Bool) (option imm3 rm rn rd : ℕ)
    → Falls (add_sub_ext_reg cpu sf sub set_flags option imm3 rm rn rd)
unfolding add_sub_ext_reg
add_sub_ext_reg-Falls cpu sf sub set_flags option imm3 rm rn rd =
    Ensures-after (read cpu rn sf true) _ λ a e.
      Ensures-after (extend_reg cpu rm option imm3) _ λ b e'. finish-Falls _ rd sf _ (not set_flags)

pub add_sub_carry-Falls :
    (cpu : CpuState) (sf sub set_flags : Bool) (rm rn rd : ℕ)
    → Falls (add_sub_carry cpu sf sub set_flags rm rn rd)
unfolding add_sub_carry
add_sub_carry-Falls cpu sf sub set_flags rm rn rd =
    Ensures-after (read cpu rn sf false) _
      λ a e. Ensures-after (read cpu rm sf false) _ λ b e'. finish-Falls _ rd sf _ false

pub logical_reg-Falls :
    (cpu : CpuState) (sf : Bool) (opc : ℕ) (negate : Bool) (shift : ShiftType) (amount rm rn rd : ℕ)
    → Falls (logical_reg cpu sf opc negate shift amount rm rn rd)
unfolding logical_reg
logical_reg-Falls cpu sf opc negate shift amount rm rn rd =
    Ensures-after (read cpu rn sf false) _ λ a e.
      Ensures-after (read cpu rm sf false) _
        λ m e'. Ensures-after (logical opc a _) _ λ r e″. finish-Falls _ rd sf r false

pub cond_compare-Falls :
    (cpu : CpuState) (sf sub is_imm : Bool) (imm_y rm cond nzcv rn : ℕ)
    → Falls (cond_compare cpu sf sub is_imm imm_y rm cond nzcv rn)
unfolding cond_compare
cond_compare-Falls cpu sf sub is_imm imm_y rm cond nzcv rn =
    Ensures-if (eval_cond cond cpu.flags) _ _
      (λ holds.
        Ensures-after (if is_imm then some imm_y else read cpu rm sf false) _
          λ y e. Ensures-after (read cpu rn sf false) _ λ a e'. Ensures-some refl)
      λ fails. Ensures-some refl

pub cond_select-Falls :
    (cpu : CpuState) (sf op o2 : Bool) (cond rm rn rd : ℕ)
    → Falls (cond_select cpu sf op o2 cond rm rn rd)
unfolding cond_select
cond_select-Falls cpu sf op o2 cond rm rn rd =
    Ensures-after _ _ λ r e. finish-Falls cpu rd sf r false

pub data_proc_1src-Falls :
    (cpu : CpuState) (sf : Bool) (opcode rn rd : ℕ) → Falls (data_proc_1src cpu sf opcode rn rd)
unfolding data_proc_1src
data_proc_1src-Falls cpu sf opcode rn rd =
    Ensures-after (read cpu rn sf false) _
      λ x e. Ensures-after _ _ λ r e'. finish-Falls cpu rd sf r false

pub data_proc_2src-Falls :
    (cpu : CpuState) (sf : Bool) (opcode rm rn rd : ℕ)
    → Falls (data_proc_2src cpu sf opcode rm rn rd)
unfolding data_proc_2src
data_proc_2src-Falls cpu sf opcode rm rn rd = Ensures-after (read cpu rn sf false) _ λ n e.
    Ensures-after (read cpu rm sf false) _ λ m e'.
      Ensures-if (leb 0x10 opcode && leb opcode 0x17) _ _
        (λ summed. finish-Falls cpu rd false _ false)
        λ computed. Ensures-after _ _ λ r e″. finish-Falls cpu rd sf r false

pub data_proc_3src-Falls :
    (cpu : CpuState) (sf : Bool) (op31 : ℕ) (o0 : Bool) (rm ra rn rd : ℕ)
    → Falls (data_proc_3src cpu sf op31 o0 rm ra rn rd)
unfolding data_proc_3src
data_proc_3src-Falls cpu sf op31 o0 rm ra rn rd =
    Ensures-after _ _ λ r e. finish-Falls cpu rd sf r false
