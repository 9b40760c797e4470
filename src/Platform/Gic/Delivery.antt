-- ===== src/Platform/Gic/Delivery.antt =====
-- What the controller delivers, and when.
use v.Base.{ℕ, ◌≤◌, ◌<◌, ◌≡◌, ◌≢◌, ◌↔◌, ◌⊎◌, inl, inr, ap, true, false, ◌&&◌}
use v.Base.{Option, none, some, ◌∷◌, arith, ltb, Bool-cases}
use v.Platform.Gic.{Gic, num_irqs, spurious, last_or_idle, popped, running_prio}
use v.Platform.Gic.{recompute, deliverable, signals_irq, acknowledge, end_of_interrupt}
use v.Platform.Gic.{acknowledge_at}
use v.Platform.Gic.Scan.{IsHighest, scan_pending-IsHighest}
use v.Platform.Gic.Laws.{IsValid}

-- An interrupt that is enabled, pending, let through by the priority mask, and more urgent than
-- what runs.
pub record IsDeliverable (g : Gic) (id : ℕ) : Type 0 where
  pub known : id < num_irqs
  pub live : (g.enabled id && g.pending id) ≡ true
  pub unmasked : g.priority id < g.pmr
  pub urgent : g.priority id < running_prio g

deliverable_witness :
    (g : Gic) (o : Option (ℕ × ℕ))
    → IsHighest g.enabled g.pending g.priority num_irqs o
    → deliverable o g.pmr (running_prio g) ≡ true
    → (id : ℕ) × IsDeliverable g id
unfolding deliverable
deliverable_witness g none h e = cc
deliverable_witness g (some (id, p)) h e = (id, ground arith)

deliverable_of :
    (g : Gic) (o : Option (ℕ × ℕ)) (id : ℕ)
    → IsHighest g.enabled g.pending g.priority num_irqs o
    → IsDeliverable g id
    → deliverable o g.pmr (running_prio g) ≡ true
unfolding deliverable
deliverable_of g none id h d = ground (arith, h id)
deliverable_of g (some (best, p)) id h d = ground (arith, h.3 id)

-- In a controller whose cache is fresh, with both halves enabled, the cached check asserts the
-- line exactly when some interrupt is enabled, pending, below the priority mask and below the
-- running priority.
pub signals_irq_iff :
    {g : Gic}
    → IsValid g
    → g.dist_enabled ≡ true
    → g.cpu_enabled ≡ true
    → (signals_irq g ≡ true) ↔ ((id : ℕ) × IsDeliverable g id)
unfolding signals_irq
signals_irq_iff {g} h d c = (there, back)
  where
    highest : IsHighest g.enabled g.pending g.priority num_irqs g.cached_pending
    highest = rw h.cached (scan_pending-IsHighest g)

    there : signals_irq g ≡ true → (id : ℕ) × IsDeliverable g id
    there e = deliverable_witness g g.cached_pending highest (ground arith)

    back : ((id : ℕ) × IsDeliverable g id) → signals_irq g ≡ true
    back (id, e) = ground (arith, deliverable_of g g.cached_pending id highest e)

-- What a read of GICC_IAR did when it returned `id` and left `g'`.
pub record Delivered (g : Gic) (id : ℕ) (g' : Gic) : Type 0 where
  pub deliverable : IsDeliverable g id
  pub first :
      (j : ℕ)
      → IsDeliverable g j
      → (g.priority id < g.priority j) ⊎ ((g.priority id ≡ g.priority j) × (id ≤ j))
  pub moved : (g'.pending id ≡ false) × (g'.active id ≡ true)
  pub others : (j : ℕ) → id ≢ j → (g'.pending j ≡ g.pending j) × (g'.active j ≡ g.active j)
  pub running : g'.running ≡ g.priority id ∷ g.running

acknowledge_delivers :
    (g : Gic) (o : Option (ℕ × ℕ))
    → IsHighest g.enabled g.pending g.priority num_irqs o
    → deliverable o g.pmr (running_prio g) ≡ true
    → let (id, g') = acknowledge_at g o in Delivered g id g'
unfolding acknowledge_at deliverable recompute
acknowledge_delivers g none h e = cc
acknowledge_delivers g (some (id, p)) h e =
    elim (Bool-cases (ltb p g.pmr && ltb p (running_prio g))) [
      | inr dull ↦ cc
      | inl due ↦ rw due (record {
        deliverable = ground arith;
        first = λ j d. ground (arith, h.3 j);
        moved = ground arith;
        others = λ j ne. ground arith;
        running = ap (λ q. q ∷ g.running) h.2;
      })
    ]

-- In a controller whose cache is fresh, when the line is asserted, a read of GICC_IAR returns a
-- deliverable interrupt that no other deliverable one precedes in priority and then in number,
-- moves it from pending to active, makes its priority the innermost running one, and changes the
-- pending and active states of no other interrupt.
pub acknowledge-Delivered :
    {g : Gic} → IsValid g → signals_irq g ≡ true → Delivered g (acknowledge g).0 (acknowledge g).1
unfolding signals_irq acknowledge
acknowledge-Delivered {g} h e =
    acknowledge_delivers g g.cached_pending (rw h.cached (scan_pending-IsHighest g)) (ground arith)

-- With both halves enabled and the line not asserted, a read of GICC_IAR returns the spurious
-- number and changes nothing.
acknowledge_idle :
    (g : Gic)
    → g.dist_enabled ≡ true
    → g.cpu_enabled ≡ true
    → signals_irq g ≡ false
    → acknowledge g ≡ (spurious, g)
unfolding signals_irq acknowledge deliverable acknowledge_at
acknowledge_idle g d c e = ground arith

-- In a controller whose cache is fresh and whose line is asserted, an interrupt that is
-- acknowledged and then ended is neither pending nor active, and what ran before runs again.
pub end_of_interrupt-acknowledge :
    {g : Gic}
    → IsValid g
    → signals_irq g ≡ true
    → let (id, g') = acknowledge g in
      let g″ = end_of_interrupt g' id in
      (running_prio g″ ≡ running_prio g) × (g″.pending id ≡ false) × (g″.active id ≡ false)
unfolding end_of_interrupt running_prio
end_of_interrupt-acknowledge {g} h e =
    ended (acknowledge g).0 (acknowledge g).1 (acknowledge-Delivered h e)
  where
    ended :
        (id : ℕ) (g' : Gic)
        → Delivered g id g'
        → let g″ = end_of_interrupt g' id in
          (running_prio g″ ≡ running_prio g) × (g″.pending id ≡ false) × (g″.active id ≡ false)
    ended id g' d =
        (ap (λ stack. last_or_idle (popped stack)) d.running, d.moved.0, ground (arith, d))
