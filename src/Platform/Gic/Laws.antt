-- ===== src/Platform/Gic/Laws.antt =====
-- The invariant of the interrupt controller, and what acknowledging and ending an interrupt do.
use v.Base.{ℕ, ◌<◌, ◌≡◌, refl}
use v.Base.{List, [], ◌∷◌, arith, u32}
use v.Platform.Gic.{Gic, new, last_or_idle, popped, running_prio, scan_pending}
use v.Platform.Gic.{recompute, acknowledge, end_of_interrupt}
use v.Platform.Gic.{set_pending, clear_pending, scan_from}
use v.Platform.Gic.Regs.{dist_update, dist_write, cpu_read, cpu_write, send_sgi}

-- Each priority on the stack preempted the one below it, the lowest one the idle priority.
abbrev pub Preempts : List ℕ → Type 0
Preempts [] = Unit {0}
Preempts (p ∷ rest) = (p < last_or_idle rest) × Preempts rest

-- The cache holds what a scan would find, and the active priorities are nested.
pub record IsValid (g : Gic) : Type 0 where
  pub cached : g.cached_pending ≡ scan_pending g
  pub nested : Preempts g.running

pub new-IsValid : IsValid new
unfolding new scan_pending scan_from
new-IsValid = record { cached = refl; nested = tt }

pub recompute-IsValid : (g : Gic) → Preempts g.running → IsValid (recompute g)
unfolding recompute scan_pending
recompute-IsValid g h = record { cached = refl; nested = h }

pub set_pending-IsValid : {g : Gic} (id : ℕ) → IsValid g → IsValid (set_pending g id)
unfolding set_pending recompute scan_pending
set_pending-IsValid id h = ground arith

pub clear_pending-IsValid : {g : Gic} (id : ℕ) → IsValid g → IsValid (clear_pending g id)
unfolding clear_pending recompute scan_pending
clear_pending-IsValid id h = ground arith

acknowledge-IsValid : {g : Gic} → IsValid g → IsValid (acknowledge g).1
unfolding acknowledge recompute scan_pending running_prio
acknowledge-IsValid h = ground arith

popped-Preempts : (running : List ℕ) → Preempts running → Preempts (popped running)
popped-Preempts [] h = h
popped-Preempts (p ∷ rest) h = h.1

end_of_interrupt-IsValid : {g : Gic} (id : ℕ) → IsValid g → IsValid (end_of_interrupt g id)
unfolding end_of_interrupt scan_pending
end_of_interrupt-IsValid {g} id h = record {
  cached = h.cached;
  nested = popped-Preempts g.running h.nested;
}

running-dist_update :
    (g : Gic) (off size val : ℕ) → (dist_update g off size val).running ≡ g.running
unfolding dist_update send_sgi
running-dist_update g off size val = ground arith

dist_write-IsValid : {g : Gic} (off size val : ℕ) → IsValid g → IsValid (dist_write g off size val)
unfolding dist_write
dist_write-IsValid {g} off size val h =
    recompute-IsValid (dist_update g off size val)
      (rw (running-dist_update g off size val) h.nested)

cpu_read-IsValid : {g : Gic} (off : ℕ) → IsValid g → IsValid (cpu_read g off).1
unfolding cpu_read
cpu_read-IsValid off h = ground (arith, acknowledge-IsValid h)

cpu_write-IsValid : {g : Gic} (off val : ℕ) → IsValid g → IsValid (cpu_write g off val)
unfolding cpu_write scan_pending
cpu_write-IsValid off val h = ground (arith, end_of_interrupt-IsValid (u32 val) h)

-- What reaches the controller from the peripherals and from the guest.
pub data Access : Type 0 where
  raise lower : ℕ → Access
  dist_store : ℕ → ℕ → ℕ → Access
  cpu_load : ℕ → Access
  cpu_store : ℕ → ℕ → Access

pub step : Gic → Access → Gic
step g (raise id) = set_pending g id
step g (lower id) = clear_pending g id
step g (dist_store off size val) = dist_write g off size val
step g (cpu_load off) = (cpu_read g off).1
step g (cpu_store off val) = cpu_write g off val

pub run : Gic → List Access → Gic
run g [] = g
run g (a ∷ accesses) = run (step g a) accesses

pub step-IsValid : {g : Gic} (a : Access) → IsValid g → IsValid (step g a)
unfolding step
step-IsValid (raise id) h = set_pending-IsValid id h
step-IsValid (lower id) h = clear_pending-IsValid id h
step-IsValid (dist_store off size val) h = dist_write-IsValid off size val h
step-IsValid (cpu_load off) h = cpu_read-IsValid off h
step-IsValid (cpu_store off val) h = cpu_write-IsValid off val h

run_from-IsValid : (accesses : List Access) {g : Gic} → IsValid g → IsValid (run g accesses)
unfolding run
run_from-IsValid [] h = h
run_from-IsValid (a ∷ accesses) h = run_from-IsValid accesses (step-IsValid a h)

-- After any accesses whatever to a new controller, by the peripherals and by the guest, the cached
-- interrupt is the one that a full scan finds, and each active priority preempted the one before.
pub run-IsValid : (accesses : List Access) → IsValid (run new accesses)
run-IsValid accesses = run_from-IsValid accesses new-IsValid
