-- ===== src/Cpu/State/Banking.antt =====
-- The banked stack pointers: `sp` is the active one, and a change of exception level or of SPSel
-- moves it in and out of its bank.
use v.Base.{ℕ, ◌<◌, ◌≡◌, Bool, arith}
use v.Base.{◌==◌, if◌then◌else◌, length, length-set, get_or-set_self, get_or-set_ne}
use v.Cpu.State.{CpuState, sp_index, set_el_spsel, read_sp_el, write_sp_el}

pub record IsValid (cpu : CpuState) : Type 0 where
  pub banks : length cpu.sp_el ≡ 4
  pub level : cpu.el < 4
  pub masks : cpu.daif < 16

pub sp_index-lt : (cpu : CpuState) → IsValid cpu → sp_index cpu < 4
unfolding sp_index
sp_index-lt cpu h = ground arith

pub set_el_spsel-IsValid :
    (cpu : CpuState) (el : ℕ) (spsel : Bool)
    → el < 4
    → IsValid cpu
    → IsValid (set_el_spsel cpu el spsel)
unfolding set_el_spsel
set_el_spsel-IsValid cpu el spsel lt h = ground (arith, length-set cpu.sp_el (sp_index cpu) cpu.sp)

-- From a valid state (four banks, a level below 4) and to a level below 4, a change of level keeps
-- each of the four banked stack pointers, makes the one that it selects active, and sets what it
-- is asked to set.
pub read_sp_el-set_el_spsel :
    (cpu : CpuState) (el : ℕ) (spsel : Bool) (i : ℕ)
    → IsValid cpu
    → el < 4
    → i < 4
    → let cpu' = set_el_spsel cpu el spsel in
      (read_sp_el cpu' i ≡ read_sp_el cpu i)
      × (cpu'.sp ≡ read_sp_el cpu (if spsel then el else 0))
      × (cpu'.el ≡ el)
      × (cpu'.spsel ≡ spsel)
unfolding set_el_spsel read_sp_el sp_index
read_sp_el-set_el_spsel cpu el spsel i h lt ilt = ground (
  arith,
  get_or-set_self 0 cpu.sp_el (if cpu.spsel then cpu.el else 0) cpu.sp,
  get_or-set_ne 0 cpu.sp_el (if cpu.spsel then cpu.el else 0) i cpu.sp,
  get_or-set_ne 0 cpu.sp_el (if cpu.spsel then cpu.el else 0) (if spsel then el else 0) cpu.sp,
)

-- In a valid state, a banked stack pointer (below 4) that is written is read back, and the others
-- are as before.
pub read_sp_el-write_sp_el :
    (cpu : CpuState) (idx val i : ℕ)
    → IsValid cpu
    → idx < 4
    → read_sp_el (write_sp_el cpu idx val) i ≡ (if idx == i then val else read_sp_el cpu i)
unfolding read_sp_el write_sp_el sp_index
read_sp_el-write_sp_el cpu idx val i h lt =
    ground (arith, get_or-set_self 0 cpu.sp_el idx val, get_or-set_ne 0 cpu.sp_el idx i val)
