-- ===== src/Interp/Ldst/Retry.antt =====
-- A load or store, a pair, an atomic or an exclusive load whose access faults is executed again
-- after the handler: the fault leaves the registers, the flags and the monitor as they were. The
-- exclusive stores, which write their status and clear the monitor all the same, are not covered.
pub mod Classes
pub mod Pairs
pub mod Swaps
use v.Base.{ℕ, ◌+◌, ◌-◌, ◌*◌, ◌<<<◌, ◌≡◌, ◌⊎◌, inl, inr, refl, sym, ◌∙◌, bit_and}
use v.Base.{Bool, true, false, not, ◌&&◌, ◌||◌, Option, none, some, ◌==◌, if◌then◌else◌}
use v.Base.{Bool-cases, set?, ◌>>=◌}
use v.Base.Ensures.{Ensures, Ensures-some, Ensures-if, Ensures-after, Ensures-bind}
use v.Base.Ensures.{Ensures-weaken}
use v.Cpu.State.{CpuState, sp_or_zr, read_gpr, write_gpr, write_gpr_w}
use v.Interp.Memory.{GuestMem}
use v.Interp.MemAccess.{aborted, align_check}
use v.Interp.MemAccess.Frame.{Untouched, Untouched-refl, Untouched-trans, align_check-Untouched}
use v.Interp.Ldst.{writeback_base, write_result}
use v.Interp.Ldst.Excl.{aligned}

pub write_gpr-aborted :
    (cpu : CpuState) (idx : ℕ) (sp : Bool) (val : ℕ)
    → Ensures (λ (c : CpuState). aborted c ≡ aborted cpu) (write_gpr cpu idx sp val)
unfolding write_gpr
write_gpr-aborted cpu idx sp val =
    Ensures-if (idx == sp_or_zr) _ _
      (λ zr. Ensures-if sp _ _ (λ s. Ensures-some refl) λ z. Ensures-some refl)
      λ gp. Ensures-after (set? cpu.x idx val) _ λ x' e. Ensures-some refl

write_result-aborted :
    (cpu : CpuState) (dst64 : Bool) (rt val : ℕ)
    → Ensures (λ (c : CpuState). aborted c ≡ aborted cpu) (write_result cpu dst64 rt val)
unfolding write_result write_gpr_w
write_result-aborted cpu dst64 rt val =
    Ensures-if dst64 _ _ (λ x. write_gpr-aborted cpu rt false val)
      λ w. write_gpr-aborted cpu rt false (bit_and val 0xffff_ffff)

module _ {Mem : Type 0} where
  -- If the outcome has a pending abort, nothing of the core but the translation cache changed.
  abbrev pub Restarts : CpuState → Option (CpuState × Mem) → Type 0
  Restarts cpu = Ensures (λ (r : CpuState × Mem). aborted r.0 ≡ true → Untouched cpu r.0)

  -- The outcome has no pending abort.
  abbrev pub Completes : Option (CpuState × Mem) → Type 0
  Completes = Ensures (λ (r : CpuState × Mem). aborted r.0 ≡ false)

  pub Completes-Restarts :
      {cpu : CpuState} {o : Option (CpuState × Mem)} → Completes o → Restarts cpu o
  Completes-Restarts h = Ensures-weaken h λ r clean fault. cc

  -- The test that follows an access, before more of them and before the end.
  pub Restarts-guard :
      {cpu cpu' : CpuState} (mem : Mem) (rest : Option (CpuState × Mem))
      → Untouched cpu cpu'
      → (aborted cpu' ≡ false → Restarts cpu rest)
      → Restarts cpu (if aborted cpu' then some (cpu', mem) else rest)
  Restarts-guard {cpu} {cpu'} mem rest u h =
      Ensures-if (aborted cpu') _ _ (λ fault. Ensures-some λ _. u) h

  pub Restarts-last :
      {cpu cpu' : CpuState} (mem : Mem) (rest : Option (CpuState × Mem))
      → Untouched cpu cpu'
      → (aborted cpu' ≡ false → Completes rest)
      → Restarts cpu (if aborted cpu' then some (cpu', mem) else rest)
  Restarts-last mem rest u h = Restarts-guard mem rest u λ clean. Completes-Restarts (h clean)

  -- A write of a result before the end.
  pub Completes-write_result :
      (cpu : CpuState) (dst64 : Bool) (rt val : ℕ) (rest : CpuState → Option (CpuState × Mem))
      → aborted cpu ≡ false
      → ((c : CpuState) → aborted c ≡ false → Completes (rest c))
      → Completes (write_result cpu dst64 rt val >>= rest)
  Completes-write_result cpu dst64 rt val rest clean h =
      Ensures-bind _ rest (write_result-aborted cpu dst64 rt val) λ c e. h c (e ∙ clean)

module _ (M : GuestMem) where
  open M use {Mem}

  pub Restarts-aligned :
      (cpu : CpuState) (mem : Mem) (va bytes : ℕ) (w : Bool)
      (rest : CpuState → Option (CpuState × Mem))
      → ((checked : CpuState) → Untouched cpu checked → Restarts cpu (rest checked))
      → Restarts cpu (aligned M (align_check cpu va bytes w) mem rest)
  unfolding aligned
  Restarts-aligned cpu mem va bytes w rest h =
      Ensures-if (align_check cpu va bytes w).1 _ _
        (λ off. Ensures-some λ _. align_check-Untouched cpu va bytes w)
        λ on. h (align_check cpu va bytes w).0 (align_check-Untouched cpu va bytes w)
