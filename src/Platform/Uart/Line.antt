-- ===== src/Platform/Uart/Line.antt =====
-- The interrupt line of the UART.
use v.Base.{ℕ, ◌<◌, ◌≡◌, true, false, List, [], ◌∷◌, arith, bit_and, ◌!=◌}
use v.Base.{==→eq, Bool, refl, ◌++◌, ◌||◌, ◌⊎◌, if◌then◌else◌, ◌==◌, Bool-cases, inl, inr, ◌∙◌}
use v.Base.{sym}
use mathlib.Core.Path.{subst}
use v.Platform.Gic
use v.Platform.Gic.{Gic, num_irqs, set_pending, clear_pending, recompute}
use v.Platform.Gic.Laws.{set_pending-IsValid, clear_pending-IsValid}
use v.Platform.Uart.{Uart, ris, update_irq, read, write, take_tx, feed, without_front}

-- The line is pending in the controller exactly when an unmasked status bit is set, and the
-- controller's cache is fresh.
pub record Follows (u : Uart) : Type 0 where
  pub gic : Gic.Laws.IsValid u.gic
  pub known : u.irq < num_irqs
  pub line : u.gic.pending u.irq ≡ (bit_and (ris u) u.imsc != 0)

pending-set_pending : (g : Gic) (id : ℕ) → id < num_irqs → (set_pending g id).pending id ≡ true
unfolding set_pending recompute
pending-set_pending g id lt = ground arith

pending-clear_pending : (g : Gic) (id : ℕ) → id < num_irqs → (clear_pending g id).pending id ≡ false
unfolding clear_pending recompute
pending-clear_pending g id lt = ground arith

update_irq-Follows : (u : Uart) → Gic.Laws.IsValid u.gic → u.irq < num_irqs → Follows (update_irq u)
unfolding update_irq ris
update_irq-Follows u h lt = elim (Bool-cases (bit_and (ris u) u.imsc != 0)) [
  | inl on ↦ rw on (record {
    gic = set_pending-IsValid u.irq h;
    known = lt;
    line = pending-set_pending u.gic u.irq lt ∙ sym on;
  })
  | inr off ↦ rw off (record {
    gic = clear_pending-IsValid u.irq h;
    known = lt;
    line = pending-clear_pending u.gic u.irq lt ∙ sym off;
  })
]

abbrev popped : Uart → Uart
popped u = record u { rx = without_front u.rx }

-- The status does not depend on the passive registers.
masked_status :
    (u : Uart) (ibrd fbrd lcr_h cr ifls : ℕ)
    → (bit_and (ris u) u.imsc != 0) ≡ (
        bit_and
          (ris (record u { ibrd = ibrd; fbrd = fbrd; lcr_h = lcr_h; cr = cr; ifls = ifls }))
          u.imsc
        != 0)
unfolding ris
masked_status u ibrd fbrd lcr_h cr ifls = refl

read_other : (u : Uart) (offset : ℕ) → (offset == 0x000) ≡ false → (read u offset).1 ≡ u
unfolding read
read_other u offset other = ground arith

read-Follows : (u : Uart) (offset : ℕ) → Follows u → Follows (read u offset).1
unfolding read
read-Follows u offset h = elim (Bool-cases (offset == 0x000)) [
  | inl data_register ↦ rw data_register (update_irq-Follows (popped u) h.gic h.known)
  | inr other ↦ subst Follows (sym (read_other u offset other)) h
]

-- A write stores a passive register, or stores the output or the mask and refreshes the line.
write_cases {ℓ} :
    (P : Uart → Type ℓ) (u : Uart)
    → ((tx : List ℕ) (imsc : ℕ) → P (update_irq (record u { tx = tx; imsc = imsc })))
    → ((ibrd fbrd lcr_h cr ifls : ℕ)
        → P (record u { ibrd = ibrd; fbrd = fbrd; lcr_h = lcr_h; cr = cr; ifls = ifls }))
    → (offset val : ℕ) → P (write u offset val)
unfolding write
write_cases P u active passive offset val = P-if (offset == 0x000) (active _ u.imsc) (
    P-if (offset == 0x024) (passive _ u.fbrd u.lcr_h u.cr u.ifls) (
      P-if (offset == 0x028) (passive u.ibrd _ u.lcr_h u.cr u.ifls) (
        P-if (offset == 0x02C) (passive u.ibrd u.fbrd _ u.cr u.ifls) (
          P-if (offset == 0x030) (passive u.ibrd u.fbrd u.lcr_h _ u.ifls) (
            P-if (offset == 0x034) (passive u.ibrd u.fbrd u.lcr_h u.cr _) (
              P-if (offset == 0x038) (active u.tx _) (
                P-if (offset == 0x044) (active u.tx u.imsc)
                  (passive u.ibrd u.fbrd u.lcr_h u.cr u.ifls))))))))
  where
    P-if : (b : Bool) {v w : Uart} → P v → P w → P (if b then v else w)
    P-if true p q = p
    P-if false p q = q

write-Follows : (u : Uart) (offset val : ℕ) → Follows u → Follows (write u offset val)
write-Follows u offset val h =
    write_cases Follows u (λ tx imsc. update_irq-Follows _ h.gic h.known)
      (λ ibrd fbrd lcr_h cr ifls. passive ibrd fbrd lcr_h cr ifls) offset val
  where
    passive :
        (ibrd fbrd lcr_h cr ifls : ℕ)
        → Follows (record u { ibrd = ibrd; fbrd = fbrd; lcr_h = lcr_h; cr = cr; ifls = ifls })
    passive ibrd fbrd lcr_h cr ifls = record {
      gic = h.gic;
      known = h.known;
      line = h.line ∙ masked_status u ibrd fbrd lcr_h cr ifls;
    }

-- What holds whatever the guest does to the controller.
record Connected (u : Uart) : Type 0 where
  pub gic : Gic.Laws.IsValid u.gic
  pub known : u.irq < num_irqs

update_irq-Connected :
    (u : Uart) → Gic.Laws.IsValid u.gic → u.irq < num_irqs → Connected (update_irq u)
update_irq-Connected u h lt =
    let f = update_irq-Follows u h lt in record { gic = f.gic; known = f.known }

-- What the host and the guest do to the UART, and what the guest and the other devices do to the
-- controller.
pub data Event : Type 0 where
  guest_read : ℕ → Event
  guest_write : ℕ → ℕ → Event
  host_feed : List ℕ → Event
  host_drain : Event
  controller : Gic.Laws.Access → Event

pub step : Uart → Event → Uart
step u (guest_read offset) = (read u offset).1
step u (guest_write offset val) = write u offset val
step u (host_feed bytes) = feed u bytes
step u host_drain = (take_tx u).1
step u (controller access) = record u { gic = Gic.Laws.step u.gic access }

pub run : Uart → List Event → Uart
run u [] = u
run u (e ∷ events) = run (step u e) events

-- Input, and the registers that a read or a write refreshes the line for: the data register, and
-- the mask and the interrupt clear register when written.
abbrev pub refreshes : Event → Bool
refreshes (guest_read offset) = offset == 0x000
refreshes (guest_write offset val) = offset == 0x000 || offset == 0x038 || offset == 0x044
refreshes (host_feed bytes) = true
refreshes host_drain = false
refreshes (controller access) = false

-- No access to the controller but the UART's own.
abbrev pub spares_controller : List Event → Bool
spares_controller [] = true
spares_controller (controller access ∷ events) = false
spares_controller (e ∷ events) = spares_controller events

read-Connected : (u : Uart) (offset : ℕ) → Connected u → Connected (read u offset).1
unfolding read
read-Connected u offset h = elim (Bool-cases (offset == 0x000)) [
  | inl data_register ↦ rw data_register (update_irq-Connected (popped u) h.gic h.known)
  | inr other ↦ subst Connected (sym (read_other u offset other)) h
]

read-refreshes : (u : Uart) (offset : ℕ) → offset ≡ 0x000 → Connected u → Follows (read u offset).1
unfolding read
read-refreshes u offset e h = rw e (update_irq-Follows (popped u) h.gic h.known)

step-Connected : (u : Uart) (e : Event) → Connected u → Connected (step u e)
unfolding step feed take_tx
step-Connected u (guest_read offset) h = read-Connected u offset h
step-Connected u (guest_write offset val) h =
    write_cases Connected u (λ tx imsc. update_irq-Connected _ h.gic h.known)
      (λ ibrd fbrd lcr_h cr ifls. record { gic = h.gic; known = h.known }) offset val
step-Connected u (host_feed bytes) h = update_irq-Connected _ h.gic h.known
step-Connected u host_drain h = record { gic = h.gic; known = h.known }
step-Connected u (controller access) h = record {
  gic = Gic.Laws.step-IsValid access h.gic;
  known = h.known;
}

write-refreshes :
    (u : Uart) (offset val : ℕ)
    → Connected u
    → (offset ≡ 0x000) ⊎ (offset ≡ 0x038) ⊎ (offset ≡ 0x044)
    → Follows (write u offset val)
unfolding write
write-refreshes u offset val h (inl e) = rw e (update_irq-Follows _ h.gic h.known)
write-refreshes u offset val h (inr (inl e)) = rw e (update_irq-Follows _ h.gic h.known)
write-refreshes u offset val h (inr (inr e)) = rw e (update_irq-Follows u h.gic h.known)

-- Whatever was done to the controller before, a refresh makes the line follow.
step-refreshes : (u : Uart) (e : Event) → refreshes e ≡ true → Connected u → Follows (step u e)
unfolding step feed
step-refreshes u (guest_read offset) r h = read-refreshes u offset (==→eq offset 0x000 r) h
step-refreshes u (guest_write offset val) r h = write-refreshes u offset val h which
  where
    which : (offset ≡ 0x000) ⊎ (offset ≡ 0x038) ⊎ (offset ≡ 0x044)
    which = ground arith
step-refreshes u (host_feed bytes) r h = update_irq-Follows _ h.gic h.known
step-refreshes u host_drain r h = cc
step-refreshes u (controller access) r h = cc

step-Follows :
    (u : Uart) (e : Event) → spares_controller (e ∷ []) ≡ true → Follows u → Follows (step u e)
unfolding step feed take_tx ris
step-Follows u (guest_read offset) s h = read-Follows u offset h
step-Follows u (guest_write offset val) s h = write-Follows u offset val h
step-Follows u (host_feed bytes) s h = update_irq-Follows _ h.gic h.known
step-Follows u host_drain s h = record { gic = h.gic; known = h.known; line = h.line }
step-Follows u (controller access) s h = cc

spares_first :
    (e : Event) (events : List Event)
    → spares_controller (e ∷ events) ≡ true
    → (spares_controller (e ∷ []) ≡ true) × (spares_controller events ≡ true)
spares_first (guest_read offset) events s = (refl, s)
spares_first (guest_write offset val) events s = (refl, s)
spares_first (host_feed bytes) events s = (refl, s)
spares_first host_drain events s = (refl, s)
spares_first (controller access) events s = cc

keeps_following :
    (events : List Event) (u : Uart)
    → spares_controller events ≡ true
    → Follows u
    → Follows (run u events)
unfolding run
keeps_following [] u s h = h
keeps_following (e ∷ events) u s h =
    let (here, later) = spares_first e events s in
    keeps_following events (step u e) later (step-Follows u e here h)

-- Let the controller's cache be fresh and the interrupt number known to it. After any accesses to
-- the UART and to the controller, by the guest, the host and the other devices, then an event that
-- refreshes the line, and then any that leave the controller alone but for the UART's own line, the
-- line is pending in the controller exactly when an unmasked status bit is set, and the
-- controller's cache is fresh.
pub run-Follows :
    (before : List Event) (e : Event) (after : List Event) (u : Uart)
    → Gic.Laws.IsValid u.gic
    → u.irq < num_irqs
    → refreshes e ≡ true
    → spares_controller after ≡ true
    → Follows (run u (before ++ e ∷ after))
unfolding run
run-Follows [] e after u h lt r s =
    keeps_following after (step u e) s (step-refreshes u e r (record { gic = h; known = lt }))
run-Follows (first ∷ before) e after u h lt r s =
    let c = step-Connected u first (record { gic = h; known = lt }) in
    run-Follows before e after (step u first) c.gic c.known r s
