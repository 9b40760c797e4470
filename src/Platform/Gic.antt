-- ===== src/Platform/Gic.antt =====
-- crates/platform/src/gic.rs: the GICv2 interrupt controller, its two register blocks included.
-- The arrays over interrupt identifiers are functions: the code indexes them below `num_irqs`
-- only, by the guards that are written out here. `running` has the last pushed priority first.
pub mod Scan
pub mod Bitmap
pub mod Regs
pub mod Laws
pub mod Delivery
use v.Base.{ℕ, zero, suc, ◌+◌, ◌-◌, ◌*◌, ◌/◌, ◌%◌, ◌<<<◌, ◌>>>◌, one_at, bit_and, bit_or, u8, u32}
use v.Base.{Bool, true, false, not, ◌&&◌, ◌||◌, Option, none, some, List, [], ◌∷◌, ◌==◌, ◌!=◌}
use v.Base.{ltb, leb, if◌then◌else◌, bit_of, update}

abbrev pub num_irqs : ℕ
num_irqs = 1024

abbrev pub spurious : ℕ
spurious = 1023

abbrev pub idle_prio : ℕ
idle_prio = 0xFF

pub record Gic : Type 0 where
  pub dist_enabled : Bool
  pub enabled : ℕ → Bool
  pub pending : ℕ → Bool
  pub active : ℕ → Bool
  pub priority : ℕ → ℕ
  pub cpu_enabled : Bool
  pub pmr : ℕ
  pub running : List ℕ
  pub cached_pending : Option (ℕ × ℕ)

unfoldable pub new : Gic
new = record {
  dist_enabled = false;
  enabled = λ id. false;
  pending = λ id. false;
  active = λ id. false;
  priority = λ id. 0;
  cpu_enabled = false;
  pmr = 0;
  running = [];
  cached_pending = none;
}

abbrev pub last_or_idle : List ℕ → ℕ
last_or_idle [] = idle_prio
last_or_idle (p ∷ rest) = p

unfoldable pub running_prio : Gic → ℕ
running_prio g = last_or_idle g.running

module _ (enabled pending : ℕ → Bool) (priority : ℕ → ℕ) where
  -- One round of the scan: a strictly smaller priority value takes over.
  pub better : ℕ → Option (ℕ × ℕ) → Option (ℕ × ℕ)
  better id none = if enabled id && pending id then some (id, priority id) else none
  better id (some (best_id, best_p)) =
      if enabled id && pending id && ltb (priority id) best_p
      then some (id, priority id)
      else some (best_id, best_p)

  -- `left` identifiers to go, from `id` on.
  unfoldable pub scan_from : ℕ → ℕ → Option (ℕ × ℕ) → Option (ℕ × ℕ)
  unfolding better
  scan_from zero id best = best
  scan_from (suc left) id best = scan_from left (id + 1) (better id best)

unfoldable pub scan_pending : Gic → Option (ℕ × ℕ)
scan_pending g = scan_from g.enabled g.pending g.priority num_irqs 0 none

unfoldable pub recompute : Gic → Gic
recompute g = record g { cached_pending = scan_pending g }

abbrev pub highest_pending : Gic → Option (ℕ × ℕ)
highest_pending g = g.cached_pending

unfoldable pub deliverable : Option (ℕ × ℕ) → ℕ → ℕ → Bool
deliverable (some (id, p)) pmr run = ltb p pmr && ltb p run
deliverable none pmr run = false

unfoldable pub signals_irq : Gic → Bool
unfolding deliverable
signals_irq g =
    if not g.dist_enabled || not g.cpu_enabled
    then false
    else deliverable (highest_pending g) g.pmr (running_prio g)

-- The arms of `acknowledge`, by the highest pending interrupt.
acknowledge_at : Gic → Option (ℕ × ℕ) → ℕ × Gic
acknowledge_at g (some (id, p)) =
    if ltb p g.pmr && ltb p (running_prio g)
    then (
      id,
      recompute (record g {
        pending = update g.pending id false;
        active = update g.active id true;
        running = p ∷ g.running;
      }),
    )
    else (spurious, g)
acknowledge_at g none = (spurious, g)

unfoldable pub acknowledge : Gic → ℕ × Gic
unfolding acknowledge_at
acknowledge g = acknowledge_at g (highest_pending g)

abbrev pub popped : List ℕ → List ℕ
popped [] = []
popped (p ∷ rest) = rest

unfoldable pub end_of_interrupt : Gic → ℕ → Gic
end_of_interrupt g id = record g {
  active = if ltb id num_irqs then update g.active id false else g.active;
  running = popped g.running;
}

unfoldable pub set_pending : Gic → ℕ → Gic
set_pending g id =
    if ltb id num_irqs
    then (if not (g.pending id)
        then recompute (record g { pending = update g.pending id true })
        else g)
    else g

unfoldable pub clear_pending : Gic → ℕ → Gic
clear_pending g id =
    if ltb id num_irqs
    then (if g.pending id then recompute (record g { pending = update g.pending id false }) else g)
    else g

-- `left` bits to go, from bit `i` on.
unfoldable pub read_bits : (ℕ → Bool) → ℕ → ℕ → ℕ → ℕ → ℕ
read_bits arr base zero i w = w
read_bits arr base (suc left) i w =
    read_bits arr base left (i + 1)
      (if ltb (base + i) num_irqs && arr (base + i) then bit_or w (one_at i) else w)

unfoldable pub read_bitmap : (ℕ → Bool) → ℕ → ℕ → ℕ
read_bitmap arr byte_off size = read_bits arr (byte_off * 8) (size * 8) 0 0

unfoldable pub write_bits : ℕ → ℕ → Bool → ℕ → ℕ → (ℕ → Bool) → ℕ → Bool
write_bits base val to zero i arr = arr
write_bits base val to (suc left) i arr = write_bits base val to left (i + 1) (
    if bit_and val (one_at i) != 0 && ltb (base + i) num_irqs
    then update arr (base + i) to
    else arr)

unfoldable pub write_bitmap : (ℕ → Bool) → ℕ → ℕ → ℕ → Bool → ℕ → Bool
write_bitmap arr byte_off size val to = write_bits (byte_off * 8) val to (size * 8) 0 arr
