-- ===== src/Tests/Gic.antt =====
-- The interrupt controller at concrete inputs.
use v.Base.{ℕ, ◌≡◌, ◌↔◌, refl, true, false, ◌&&◌, ◌||◌, [], ◌∷◌}
use v.Base.{leb, ltb, ◌==◌, if◌then◌else◌}
use v.Base.Bits.{bit}
use v.Platform.Gic.{Gic, new, num_irqs, scan_pending, scan_from, recompute, signals_irq}
use v.Platform.Gic.{deliverable}
use v.Platform.Gic.{acknowledge, end_of_interrupt, running_prio, write_bitmap}
use v.Platform.Gic.Scan.{IsHighest, scan_pending-IsHighest}
use v.Platform.Gic.Laws.{IsValid, raise, cpu_load, run, run-IsValid, recompute-IsValid}
use v.Platform.Gic.Delivery.{IsDeliverable, Delivered, signals_irq_iff, acknowledge-Delivered}
use v.Platform.Gic.Delivery.{end_of_interrupt-acknowledge}
use v.Platform.Gic.Bitmap.{write_bitmap_lem}

-- Interrupts 33 and 40 enabled and pending, 40 the more urgent one.
abbrev busy : Gic
busy = recompute (record new {
  dist_enabled = true;
  cpu_enabled = true;
  pmr = 0xf0;
  enabled = λ id. id == 33 || id == 40;
  pending = λ id. id == 33 || id == 40;
  priority = λ id. if id == 40 then 0x20 else 0x80;
})

-- The same with nothing pending.
abbrev idle : Gic
idle = recompute (record new { dist_enabled = true; cpu_enabled = true; pmr = 0xf0 })

busy-IsValid : IsValid busy
unfolding new
busy-IsValid = recompute-IsValid _ tt

busy_enabled : busy.dist_enabled ≡ true
unfolding recompute
busy_enabled = refl

busy_cpu_enabled : busy.cpu_enabled ≡ true
unfolding recompute
busy_cpu_enabled = refl

busy_signals : signals_irq busy ≡ true
unfolding signals_irq deliverable recompute scan_pending scan_from running_prio new
busy_signals = refl

idle_enabled : (idle.dist_enabled ≡ true) × (idle.cpu_enabled ≡ true)
unfolding recompute
idle_enabled = (refl, refl)

idle_quiet : signals_irq idle ≡ false
unfolding signals_irq deliverable recompute scan_pending scan_from running_prio new
idle_quiet = refl

run-IsValid_example : IsValid (run new (raise 33 ∷ cpu_load 0x0c ∷ []))
run-IsValid_example = run-IsValid (raise 33 ∷ cpu_load 0x0c ∷ [])

scan_pending-IsHighest_example :
    IsHighest busy.enabled busy.pending busy.priority num_irqs (scan_pending busy)
scan_pending-IsHighest_example = scan_pending-IsHighest busy

signals_irq_iff_example : (signals_irq busy ≡ true) ↔ ((id : ℕ) × IsDeliverable busy id)
signals_irq_iff_example = signals_irq_iff busy-IsValid busy_enabled busy_cpu_enabled

acknowledge-Delivered_example : Delivered busy (acknowledge busy).0 (acknowledge busy).1
acknowledge-Delivered_example = acknowledge-Delivered busy-IsValid busy_signals

end_of_interrupt-acknowledge_example :
    let (id, g') = acknowledge busy in
    let g″ = end_of_interrupt g' id in
    (running_prio g″ ≡ running_prio busy) × (g″.pending id ≡ false) × (g″.active id ≡ false)
end_of_interrupt-acknowledge_example = end_of_interrupt-acknowledge busy-IsValid busy_signals

write_bitmap_lem_example : write_bitmap busy.enabled 4 4 0x3 false 33 ≡ (
    if leb 32 33 && ltb 33 64 && ltb 33 num_irqs && (bit 0x3 1 == 1)
    then false
    else busy.enabled 33)
write_bitmap_lem_example = write_bitmap_lem busy.enabled 4 4 0x3 false 33
