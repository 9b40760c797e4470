-- ===== src/Interp/Ldst/Excl/Monitor.antt =====
-- The monitor over a run of exclusive accesses.
use v.Base.{sym, ℕ, ◌-◌, ◌<<<◌, ◌≡◌, refl, ◌∙◌, bit_and, Bool, true}
use v.Base.{false}
use v.Base.{none, some, ◌==◌, ◌!=◌, if◌then◌else◌, set?, Bool-cases, inl, inr}
use v.Base.{arith}
use v.Base.Ensures.{Ensures, Ensures-some, Ensures-if, Ensures-after, Ensures-bind}
use v.Base.Ensures.{Ensures-weaken}
use v.Cpu.State.{CpuState, sp_or_zr, excl, arm_excl, clear_excl, read_gpr, write_gpr, write_gpr_w}
use v.Interp.Memory.{GuestMem}
use v.Interp.MemAccess.{aborted, align_check, read}
use v.Interp.Ldst.{write_result}
use v.Interp.Ldst.Excl.{aligned, load, still_armed, concluded, store_one, store}

true-ne-false : true ≡ false → ⊥
true-ne-false e = cc

-- A register write does not touch the monitor.
write_gpr-excl :
    (cpu : CpuState) (idx : ℕ) (sp : Bool) (val : ℕ)
    → Ensures (λ (c : CpuState). excl c ≡ excl cpu) (write_gpr cpu idx sp val)
unfolding write_gpr excl
write_gpr-excl cpu idx sp val =
    Ensures-if (idx == sp_or_zr) _ _
      (λ zr. Ensures-if sp _ _ (λ s. Ensures-some refl) λ z. Ensures-some refl)
      λ gp. Ensures-after (set? cpu.x idx val) _ λ x' e. Ensures-some refl

excl-clear_excl : (cpu : CpuState) → excl (clear_excl cpu) ≡ none
unfolding excl clear_excl
excl-clear_excl cpu = refl

excl-align_check :
    (cpu : CpuState) (va bytes : ℕ) (w : Bool) → excl (align_check cpu va bytes w).0 ≡ excl cpu
unfolding align_check excl
excl-align_check cpu va bytes w = ground arith

align_check-aborted :
    (cpu : CpuState) (va bytes : ℕ) (w : Bool)
    → (align_check cpu va bytes w).1 ≡ true
    → aborted (align_check cpu va bytes w).0 ≡ false
    → ⊥
unfolding align_check
align_check-aborted cpu va bytes w off clean = elim (Bool-cases (bit_and va (bytes - 1) != 0)) [
  | inl e ↦ true-ne-false (rw e at clean)
  | inr e ↦ true-ne-false (sym (rw e at off))
]

excl-arm_excl : (cpu : CpuState) (addr val : ℕ) → excl (arm_excl cpu addr val) ≡ some (addr, val)
unfolding excl arm_excl
excl-arm_excl cpu addr val = refl

write_result-excl :
    (cpu : CpuState) (wide : Bool) (rt val : ℕ)
    → Ensures (λ (c : CpuState). excl c ≡ excl cpu) (write_result cpu wide rt val)
unfolding write_result write_gpr_w
write_result-excl cpu wide rt val =
    Ensures-if wide _ _ (λ _. write_gpr-excl cpu rt false val)
      λ _. write_gpr-excl cpu rt false (bit_and val 0xffff_ffff)

module _ (M : GuestMem) where
  open M use {Mem}

  concluded-excl :
      (cpu : CpuState) (mem : Mem) (rs : ℕ) (success : Bool)
      → Ensures
          (λ (r : CpuState × Mem). (excl r.0 ≡ none) × (r.1 ≡ mem))
          (concluded M cpu mem rs success)
  unfolding concluded write_gpr_w
  concluded-excl cpu mem rs success =
      Ensures-bind _ _ (write_gpr-excl (clear_excl cpu) rs false _)
        λ c e. Ensures-some (e ∙ excl-clear_excl cpu, refl)

  -- An exclusive store whose address is aligned leaves the monitor clear, whether it stored or not
  -- and whether its accesses faulted or not.
  store-clear_excl :
      (cpu : CpuState) (mem : Mem) (size rs rt rn addr : ℕ)
      → read_gpr cpu rn true ≡ some addr
      → bit_and addr ((1 <<< size) - 1) ≡ 0
      → Ensures (λ (r : CpuState × Mem). excl r.0 ≡ none) (store M cpu mem size rs rt rn)
  unfolding store aligned align_check
  store-clear_excl cpu mem size rs rt rn addr reads whole = rw reads (
      rw whole (
        Ensures-after (still_armed M (excl cpu) cpu mem addr size) _ λ a e.
          Ensures-after (if a.0 then store_one M a.1 a.2 addr size rt else some (a.1, a.2)) _
            λ w e'. Ensures-weaken (concluded-excl w.0 w.1 rs a.0) λ r h. h.0))

  -- An exclusive store that finds the monitor clear writes nothing to memory.
  store-unarmed :
      (cpu : CpuState) (mem : Mem) (size rs rt rn : ℕ)
      → excl cpu ≡ none
      → Ensures (λ (r : CpuState × Mem). r.1 ≡ mem) (store M cpu mem size rs rt rn)
  unfolding store aligned still_armed
  store-unarmed cpu mem size rs rt rn clear = Ensures-after (read_gpr cpu rn true) _ λ addr e.
      Ensures-if (align_check cpu addr (1 <<< size) true).1 _ _ (λ _. Ensures-some refl)
        λ _.
          rw (excl-align_check cpu addr (1 <<< size) true, clear)
            (Ensures-weaken (concluded-excl _ mem rs false) λ r h. h.1)

  -- After an exclusive store at an aligned address, stored or not, the next exclusive store writes
  -- nothing to memory, whatever its size, registers and address, when nothing ran in between.
  pub store-store :
      (cpu cpu' cpu″ : CpuState) (mem mem' mem″ : Mem) (size rs rt rn addr size' rs' rt' rn' : ℕ)
      → read_gpr cpu rn true ≡ some addr
      → bit_and addr ((1 <<< size) - 1) ≡ 0
      → store M cpu mem size rs rt rn ≡ some (cpu', mem')
      → store M cpu' mem' size' rs' rt' rn' ≡ some (cpu″, mem″)
      → mem″ ≡ mem'
  store-store cpu cpu' cpu″ mem mem' mem″ size rs rt rn addr size' rs' rt' rn' reads whole e f =
      let clear = (store-clear_excl cpu mem size rs rt rn addr reads whole).at _ e in
      (store-unarmed cpu' mem' size' rs' rt' rn' clear).at _ f

  -- An exclusive load that leaves no abort pending leaves the monitor armed for its address.
  load-arm_excl :
      (cpu : CpuState) (mem : Mem) (size rt rn addr : ℕ)
      → read_gpr cpu rn true ≡ some addr
      → Ensures
          (λ (r : CpuState × Mem). aborted r.0 ≡ false → (val : ℕ) × (excl r.0 ≡ some (addr, val)))
          (load M cpu mem size rt rn)
  unfolding load aligned
  load-arm_excl cpu mem size rt rn addr reads = rw reads (
      Ensures-if (align_check cpu addr (1 <<< size) false).1 _ _
        (λ off.
          Ensures-some λ clean. absurd (align_check-aborted cpu addr (1 <<< size) false off clean))
        λ on. Ensures-after (read M _ mem addr size) _ λ r e.
          Ensures-if (aborted r.1) _ _
            (λ fault. Ensures-some λ clean. absurd (true-ne-false (sym fault ∙ clean)))
            λ _.
              Ensures-bind _ _ (write_result-excl (arm_excl r.1 addr r.0) (size == 3) rt r.0)
                λ c f. Ensures-some λ _. (r.0, f ∙ excl-arm_excl r.1 addr r.0))
