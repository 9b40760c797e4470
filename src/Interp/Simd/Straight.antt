-- ===== src/Interp/Simd/Straight.antt =====
-- The vector executors return no target.
use v.Base.{ℕ, ◌+◌, ◌*◌, ◌<<<◌, refl, Bool, false}
use v.Base.{get_elem?, set?, leb}
use v.Base.{if◌then◌else◌}
use v.Base.Ensures.{Ensures-some, Ensures-check, Ensures-after}
use v.Cpu.State.{CpuState, read_gpr}
use v.Interp.Integer.Straight.{Falls, Falls-none}
use v.Interp.Ldst.{write_result}
use v.Interp.Simd.Lanes.{set_vreg, dup_general, dup_element, ins_general, ins_element, mov_to_gpr}
use v.Interp.Simd.Lanes.{get_lane, set_lane, split, join}
use v.Interp.Simd.Permute.{permute, arranged, ext, table_lookup, table_from}

set_vreg-Falls : (cpu : CpuState) (rd val : ℕ) → Falls (set_vreg cpu rd val)
unfolding set_vreg
set_vreg-Falls cpu rd val = Ensures-after (set? cpu.vregs rd val) _ λ v e. Ensures-some refl

pub dup_general-Falls :
    (cpu : CpuState) (q : Bool) (size rn rd : ℕ) → Falls (dup_general cpu q size rn rd)
unfolding dup_general
dup_general-Falls cpu q size rn rd =
    Ensures-after (read_gpr cpu rn false) _ λ src e. set_vreg-Falls cpu rd _

pub dup_element-Falls :
    (cpu : CpuState) (q : Bool) (size index rn rd : ℕ) → Falls (dup_element cpu q size index rn rd)
unfolding dup_element
dup_element-Falls cpu q size index rn rd =
    Ensures-after (get_elem? cpu.vregs rn) _
      λ vn e. Ensures-after (get_lane vn index (8 <<< size)) _ λ elem e'. set_vreg-Falls cpu rd _

pub ins_general-Falls :
    (cpu : CpuState) (size index rn rd : ℕ) → Falls (ins_general cpu size index rn rd)
unfolding ins_general
ins_general-Falls cpu size index rn rd = Ensures-after (read_gpr cpu rn false) _ λ elem e.
    Ensures-after (get_elem? cpu.vregs rd) _
      λ vd e'. Ensures-after (set_lane vd index (8 <<< size) elem) _ λ v e″. set_vreg-Falls cpu rd v

pub ins_element-Falls :
    (cpu : CpuState) (size dst src rn rd : ℕ) → Falls (ins_element cpu size dst src rn rd)
unfolding ins_element
ins_element-Falls cpu size dst src rn rd = Ensures-after (get_elem? cpu.vregs rn) _ λ vn e.
    Ensures-after (get_lane vn src (8 <<< size)) _ λ elem e'.
      Ensures-after (get_elem? cpu.vregs rd) _
        λ vd e″. Ensures-after (set_lane vd dst (8 <<< size) elem) _ λ v e‴. set_vreg-Falls cpu rd v

pub mov_to_gpr-Falls :
    (cpu : CpuState) (signed dst64 : Bool) (size index vn rd : ℕ)
    → Falls (mov_to_gpr cpu signed dst64 size index vn rd)
unfolding mov_to_gpr
mov_to_gpr-Falls cpu signed dst64 size index vn rd = Ensures-after (get_elem? cpu.vregs vn) _ λ v e.
    Ensures-after (get_lane v index (8 <<< size)) _ λ lane e'.
      Ensures-after _ _
        λ val e″. Ensures-after (write_result cpu dst64 rd val) _ λ c e‴. Falls-none c

pub permute-Falls :
    (cpu : CpuState) (q : Bool) (size opcode rm rn rd : ℕ)
    → Falls (permute cpu q size opcode rm rn rd)
unfolding permute
permute-Falls cpu q size opcode rm rn rd = Ensures-after (get_elem? cpu.vregs rn) _ λ vn e.
    Ensures-after (get_elem? cpu.vregs rm) _ λ vm e'.
      Ensures-after (arranged opcode (split vn size q) (split vm size q)) _
        λ r e″. Ensures-after (join r size) _ λ v e‴. set_vreg-Falls cpu rd v

pub ext-Falls : (cpu : CpuState) (q : Bool) (imm4 rm rn rd : ℕ) → Falls (ext cpu q imm4 rm rn rd)
unfolding ext
ext-Falls cpu q imm4 rm rn rd = Ensures-after (get_elem? cpu.vregs rn) _ λ vn e.
    Ensures-after (get_elem? cpu.vregs rm) _ λ vm e'.
      Ensures-check (leb (imm4 + (if q then 16 else 8)) 32) _ λ fits. set_vreg-Falls cpu rd _

pub table_lookup-Falls :
    (cpu : CpuState) (q is_tbx : Bool) (len rm rn rd : ℕ)
    → Falls (table_lookup cpu q is_tbx len rm rn rd)
unfolding table_lookup
table_lookup-Falls cpu q is_tbx len rm rn rd = Ensures-after (get_elem? cpu.vregs rm) _ λ idx e.
    Ensures-after (get_elem? cpu.vregs rd) _ λ old e'.
      Ensures-after (table_from (if q then 16 else 8) cpu is_tbx ((len + 1) * 16) rn idx old 0 0) _
        λ out e″. set_vreg-Falls cpu rd out
