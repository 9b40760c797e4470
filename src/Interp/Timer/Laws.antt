-- ===== src/Interp/Timer/Laws.antt =====
-- The timer's compare value, seen as a count of ticks left, and the deadline of the machine.
use v.Base.{ℕ, ◌%◌, ◌^◌, ◌<◌, ◌≡◌, ◌≢◌, refl, Bool}
use v.Base.{false, ◌&&◌, ◌||◌}
use v.Base.{Option, none, some, arith, bit_and, ◌!=◌, leb}
use v.Base.{eq→==, ne→==}
use v.Cpu.State.{CpuState}
use v.Decoder.Branch.{sysreg_key}
use v.Interp.Timer.{get_reg, tval_read, tval_write, next_deadline, earliest, set_count}
use v.Interp.Timer.{virtual_fires}
use v.Interp.Timer.{physical_fires, key_cntv_ctl, key_cntv_cval, key_cntp_ctl}
use v.Interp.Timer.{key_cntp_cval}

-- A write of TVAL is read back: with the count unchanged, the ticks left are the low 32 bits of
-- what was written, for every timer whose compare value and count are different registers and
-- whose count is a 64-bit value.
tval_read-tval_write :
    (cpu : CpuState) (cval cnt val : ℕ)
    → cval ≢ cnt
    → get_reg cpu cnt < 2 ^ 64
    → tval_read (tval_write cpu cval cnt val) cval cnt ≡ val % 2 ^ 32
unfolding tval_read tval_write
tval_read-tval_write cpu cval cnt val differ small =
    rw (eq→== cval cval refl, ne→== cval cnt differ) (ground arith)

-- An enabled timer reaches its compare value.
abbrev pub reached : CpuState → ℕ → ℕ → ℕ → Bool
reached cpu ctl cval t = bit_and (get_reg cpu ctl) 1 != 0 && leb (get_reg cpu cval) t

abbrev pub due : Option ℕ → ℕ → Bool
due none t = false
due (some d) t = leb d t

due-earliest :
    (cpu : CpuState) (ctl cval : ℕ) (o : Option ℕ) (t : ℕ)
    → due (earliest cpu ctl cval o) t ≡ (due o t || reached cpu ctl cval t)
unfolding earliest
due-earliest cpu ctl cval none t = ground arith
due-earliest cpu ctl cval (some d) t = ground arith

-- The deadline for which an idle machine sleeps is right: at a count `t` it has passed exactly when
-- one of the two timers is enabled with its compare value at or below `t`.
next_deadline_lem :
    (cpu : CpuState) (t : ℕ)
    → due (next_deadline cpu) t
      ≡ (reached cpu key_cntv_ctl key_cntv_cval t || reached cpu key_cntp_ctl key_cntp_cval t)
unfolding next_deadline
next_deadline_lem cpu t = ground (
  arith,
  due-earliest cpu key_cntv_ctl key_cntv_cval none t,
  due-earliest cpu key_cntp_ctl key_cntp_cval (earliest cpu key_cntv_ctl key_cntv_cval none) t,
)

-- Sleeping up to the deadline misses no timer interrupt: at any count that the deadline has not
-- reached, neither timer asserts its line.
pub set_count-quiet :
    (cpu : CpuState) (t : ℕ)
    → due (next_deadline cpu) t ≡ false
    → (virtual_fires (set_count cpu t) ≡ false) × (physical_fires (set_count cpu t) ≡ false)
unfolding virtual_fires physical_fires set_count sysreg_key
set_count-quiet cpu t h =
    (ground (arith, next_deadline_lem cpu t), ground (arith, next_deadline_lem cpu t))
