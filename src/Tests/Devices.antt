-- ===== src/Tests/Devices.antt =====
-- The timer, the firmware calls and the UART at concrete inputs.
use v.Base.{ℕ, ◌≡◌, refl, false, none, some, []}
use v.Base.{◌∷◌, ◌++◌, map, arith}
use v.Base.{◌==◌, if◌then◌else◌, ap, suc, get_elem?, length, length-replicate, u8, replicate}
use v.Cpu.State.{CpuState}
use v.Cpu.State.Gpr.{HasRegs}
use v.Cpu.State
use v.Interp.Timer.{next_deadline, set_count, virtual_fires}
use v.Interp.Timer.{physical_fires}
use v.Interp.Timer.{earliest}
use v.Interp.Timer.Laws.{set_count-quiet, due}
use v.Decoder.Branch.{sysreg_key}
use v.Interp.Psci.{call}
use v.Interp.Psci.Calls.{Called, call-Called}
use v.Platform.Gic
use v.Platform.Gic.Laws.{new-IsValid, cpu_load}
use v.Platform.Uart
use v.Platform.Uart.{Uart, feed, take_tx, ris}
use v.Platform.Uart.Line.{Follows, run, run-Follows, guest_write, guest_read, host_feed}
use v.Platform.Uart.Line.{controller}
use v.Platform.Uart.Fifo.{receive, send, receive-feed, take_tx-send}

-- The virtual timer enabled, to fire at count 1000; the count is at 400.
abbrev ticking : CpuState
ticking = record State.new {
  sysregs = λ k.
      if k == 0x3_3e31
      then some 1
      else if k == 0x3_3e32
      then some 1000
      else if k == 0x3_3e02
      then some 400
      else none;
}

not_yet : due (next_deadline ticking) 999 ≡ false
unfolding next_deadline earliest sysreg_key
not_yet = refl

set_count-quiet_example :
    (virtual_fires (set_count ticking 999) ≡ false)
    × (physical_fires (set_count ticking 999) ≡ false)
set_count-quiet_example = set_count-quiet ticking 999 not_yet

-- SYSTEM_OFF in X0.
abbrev leaving : CpuState
leaving = record State.new { x = 0x8400_0008 ∷ replicate 30 0 }

leaving-HasRegs : HasRegs leaving
leaving-HasRegs = record { count = ap suc (length-replicate {A = ℕ} 30 0) }

call-Called_example :
    (x0 : ℕ) × (cpu' : CpuState) × (get_elem? leaving.x 0 ≡ some x0)
    × (call leaving ≡ some cpu')
    × Called leaving cpu' x0
call-Called_example = call-Called leaving leaving-HasRegs

abbrev console : Uart
console = Uart.new Gic.new 33

-- The guest unmasks input, acknowledges at the controller, input arrives, the guest reads the
-- flags and the data.
run-Follows_example : Follows (
    run console (
      (guest_write 0x038 0x10 ∷ controller (cpu_load 0x00C) ∷ [])
      ++ host_feed (65 ∷ []) ∷ guest_read 0x018 ∷ guest_read 0x000 ∷ []))
unfolding Uart.new Gic.new
run-Follows_example =
    run-Follows (guest_write 0x038 0x10 ∷ controller (cpu_load 0x00C) ∷ []) (host_feed (65 ∷ []))
      (guest_read 0x018 ∷ guest_read 0x000 ∷ []) console new-IsValid (omega arith) refl refl

receive-feed_example :
    ((receive (length (console.rx ++ 65 ∷ 66 ∷ [])) (feed console (65 ∷ 66 ∷ []))).0
      ≡ console.rx ++ 65 ∷ 66 ∷ [])
    × ((receive (length (console.rx ++ 65 ∷ 66 ∷ [])) (feed console (65 ∷ 66 ∷ []))).1.rx ≡ [])
receive-feed_example = receive-feed console (65 ∷ 66 ∷ [])

take_tx-send_example :
    ((take_tx (send console (72 ∷ 0x169 ∷ []))).0 ≡ console.tx ++ map u8 (72 ∷ 0x169 ∷ []))
    × ((take_tx (take_tx (send console (72 ∷ 0x169 ∷ []))).1).0 ≡ [])
take_tx-send_example = take_tx-send console (72 ∷ 0x169 ∷ [])
