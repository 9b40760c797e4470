-- ===== src/Interp/Timer.antt =====
-- crates/interp/src/timer.rs: the generic timer's registers and its output lines.
pub mod Laws
use v.Base.{ℕ, ◌+◌, ◌*◌, ◌/◌, ◌%◌, ◌^◌, ◌<<<◌, bit_and, bit_or, u32, u64, wrapping_add}
use v.Base.{wrapping_sub, sign_extend}
use v.Base.{bit_of, Bool, true, false, not, ◌&&◌, Option, none, some, ◌==◌, ◌!=◌, leb}
use v.Base.{if◌then◌else◌, min}
use v.Cpu.State.{CpuState}
use v.Decoder.Branch.{sysreg_key}
use v.Interp.Exception.{get_sysreg, insert_sysreg}

abbrev pub key_cntfrq : ℕ
unfolding sysreg_key
key_cntfrq = sysreg_key 3 3 14 0 0

abbrev pub key_cntpct : ℕ
unfolding sysreg_key
key_cntpct = sysreg_key 3 3 14 0 1

abbrev pub key_cntvct : ℕ
unfolding sysreg_key
key_cntvct = sysreg_key 3 3 14 0 2

abbrev pub key_cntp_tval : ℕ
unfolding sysreg_key
key_cntp_tval = sysreg_key 3 3 14 2 0

abbrev pub key_cntp_ctl : ℕ
unfolding sysreg_key
key_cntp_ctl = sysreg_key 3 3 14 2 1

abbrev pub key_cntp_cval : ℕ
unfolding sysreg_key
key_cntp_cval = sysreg_key 3 3 14 2 2

abbrev pub key_cntv_tval : ℕ
unfolding sysreg_key
key_cntv_tval = sysreg_key 3 3 14 3 0

abbrev pub key_cntv_ctl : ℕ
unfolding sysreg_key
key_cntv_ctl = sysreg_key 3 3 14 3 1

abbrev pub key_cntv_cval : ℕ
unfolding sysreg_key
key_cntv_cval = sysreg_key 3 3 14 3 2

-- `get`
abbrev pub get_reg : CpuState → ℕ → ℕ
get_reg cpu key = get_sysreg cpu.sysregs key

unfoldable pub ctl_read : CpuState → ℕ → ℕ → ℕ → ℕ
ctl_read cpu ctl_key cval_key cnt_key =
    let ctl = bit_and (get_reg cpu ctl_key) 0b11 in
    let enabled = bit_and ctl 1 != 0 in
    let istatus = enabled && leb (get_reg cpu cval_key) (get_reg cpu cnt_key) in
    bit_or ctl (bit_of istatus <<< 2)

unfoldable pub tval_read : CpuState → ℕ → ℕ → ℕ
tval_read cpu cval_key cnt_key = u32 (wrapping_sub (get_reg cpu cval_key) (get_reg cpu cnt_key))

unfoldable pub tval_write : CpuState → ℕ → ℕ → ℕ → CpuState
tval_write cpu cval_key cnt_key val =
    let delta = sign_extend 32 (u32 val) in
    insert_sysreg cpu cval_key (wrapping_add (get_reg cpu cnt_key) delta)

unfoldable pub read : CpuState → ℕ → Option ℕ
read cpu key =
    if key == key_cntv_ctl
    then some (ctl_read cpu key_cntv_ctl key_cntv_cval key_cntvct)
    else if key == key_cntp_ctl
    then some (ctl_read cpu key_cntp_ctl key_cntp_cval key_cntpct)
    else if key == key_cntv_tval
    then some (tval_read cpu key_cntv_cval key_cntvct)
    else if key == key_cntp_tval
    then some (tval_read cpu key_cntp_cval key_cntpct)
    else none

unfoldable pub write : CpuState → ℕ → ℕ → CpuState × Bool
write cpu key val =
    if key == key_cntv_tval
    then (tval_write cpu key_cntv_cval key_cntvct val, true)
    else if key == key_cntp_tval
    then (tval_write cpu key_cntp_cval key_cntpct val, true)
    else (cpu, false)

-- One round of the loop of `next_deadline`.
unfoldable pub earliest : CpuState → ℕ → ℕ → Option ℕ → Option ℕ
earliest cpu ctl cval deadline =
    let c = get_reg cpu cval in
    if bit_and (get_reg cpu ctl) 1 != 0
    then elim deadline [ none ↦ some c | some d ↦ some (min d c) ]
    else deadline

unfoldable pub next_deadline : CpuState → Option ℕ
unfolding earliest
next_deadline cpu =
    earliest cpu key_cntp_ctl key_cntp_cval (earliest cpu key_cntv_ctl key_cntv_cval none)

unfoldable pub set_frequency : CpuState → ℕ → CpuState
set_frequency cpu hz = insert_sysreg cpu key_cntfrq hz

unfoldable pub set_count : CpuState → ℕ → CpuState
set_count cpu ticks = insert_sysreg (insert_sysreg cpu key_cntvct ticks) key_cntpct ticks

unfoldable pub fires : CpuState → ℕ → ℕ → ℕ → Bool
fires cpu ctl_key cval_key cnt_key =
    let ctl = get_reg cpu ctl_key in
    let enabled = bit_and ctl 1 != 0 in
    let masked = bit_and ctl 0b10 != 0 in
    enabled && not masked && leb (get_reg cpu cval_key) (get_reg cpu cnt_key)

unfoldable pub virtual_fires : CpuState → Bool
unfolding fires
virtual_fires cpu = fires cpu key_cntv_ctl key_cntv_cval key_cntvct

unfoldable pub physical_fires : CpuState → Bool
unfolding fires
physical_fires cpu = fires cpu key_cntp_ctl key_cntp_cval key_cntpct
