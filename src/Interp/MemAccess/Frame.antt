-- ===== src/Interp/MemAccess/Frame.antt =====
-- An access changes nothing of the core but the translation cache and the pending abort.
use v.Base.{ℕ, zero, suc, ◌+◌, ◌-◌, ◌≡◌, refl, ap, ◌∙◌, ltb, Bool, true, false, Option}
use v.Base.{◌<<<◌, Bool-cases, inl, inr, ◌!=◌, bit_and, not64, Result, ok, err, not}
use v.Base.{◌^◌}
use v.Base.Ensures.{Ensures, Ensures-some, Ensures-none, Ensures-if, Ensures-check, Ensures-after}
use v.Base.Ensures.{Ensures-result, Ensures-bind, Ensures-match}
use v.Cpu.State.{read_gpr, CpuState}
use v.Cpu.Tlb
use v.Interp.Memory.{GuestMem}
use v.Interp.Mmu.{Access, translate, translate_miss, mmu_enabled, walk_va, page_mask}
use v.Interp.MemAccess.{zero_from, dc_zva, in_one_page, align_check, recorded, xlate}
use v.Interp.MemAccess.{gather_bytes}
use v.Interp.MemAccess.{aborted, scatter_bytes}
use v.Interp.MemAccess.{gather_from, gather, scatter_from, scatter, read_sized, write_sized}
use v.Interp.MemAccess.{page_end}
use v.Interp.MemAccess.{read_within, read_across, read_at, write_within, write_at}
use v.Interp.MemAccess.{read, write, read_vec, write_vec}

-- The two states agree but for the cache and the abort.
pub record Untouched (cpu cpu' : CpuState) : Type 0 where
  pub same : cpu' ≡ record cpu { tlb = cpu'.tlb; pending_abort = cpu'.pending_abort }

pub Untouched-refl : (cpu : CpuState) → Untouched cpu cpu
Untouched-refl cpu = record { same = refl }

pub Untouched-trans : {a b c : CpuState} → Untouched a b → Untouched b c → Untouched a c
Untouched-trans {a} {b} {c} ab bc = record {
  same =
      bc.same
      ∙ ap {A = CpuState} (λ z. record z { tlb = c.tlb; pending_abort = c.pending_abort }) ab.same;
}

pub align_check-Untouched :
    (cpu : CpuState) (va bytes : ℕ) (w : Bool) → Untouched cpu (align_check cpu va bytes w).0
unfolding align_check
align_check-Untouched cpu va bytes w = elim (Bool-cases (bit_and va (bytes - 1) != 0)) [
  | inl e ↦ rw e (record { same = refl })
  | inr e ↦ rw e (record { same = refl })
]

module _ (M : GuestMem) where
  open M use {Mem}

  translate_miss-Untouched :
      (cpu : CpuState) (mem : Mem) (va : ℕ) (access : Access) (el : ℕ)
      → Ensures
          (λ (r : Result ℕ ℕ × CpuState × Mem). Untouched cpu r.1)
          (translate_miss M cpu mem va access el)
  unfolding translate_miss
  translate_miss-Untouched cpu mem va access el = Ensures-after (walk_va M cpu mem va) _ λ found e.
      Ensures-result found.0 _ _ (λ lf ok. Ensures-some (record { same = refl }))
        λ fsc bad. Ensures-some (record { same = refl })

  pub translate-Untouched :
      (cpu : CpuState) (mem : Mem) (va : ℕ) (access : Access) (el : ℕ)
      → Ensures
          (λ (r : Result ℕ ℕ × CpuState × Mem). Untouched cpu r.1)
          (translate M cpu mem va access el)
  unfolding translate
  translate-Untouched cpu mem va access el =
      Ensures-if (not (mmu_enabled cpu)) _ _ (λ off. Ensures-some (Untouched-refl cpu))
        λ on.
          Ensures-match (Tlb.lookup cpu.tlb (bit_and va (not64 page_mask))) _ _
            (λ miss. translate_miss-Untouched cpu mem va access el)
            λ found hit. Ensures-some (Untouched-refl cpu)

  recorded-Untouched :
      {cpu : CpuState} (r : Result ℕ ℕ) (cpu' : CpuState) (mem : Mem) (va : ℕ) (w : Bool)
      → Untouched cpu cpu'
      → Untouched cpu (recorded M r cpu' mem va w).1
  unfolding recorded
  recorded-Untouched (ok pa) cpu' mem va w h = h
  recorded-Untouched (err fsc) cpu' mem va w h = Untouched-trans h (record { same = refl })

  pub xlate-Untouched :
      (cpu : CpuState) (mem : Mem) (va : ℕ) (w : Bool) (el : ℕ)
      → Ensures (λ (r : Option ℕ × CpuState × Mem). Untouched cpu r.1) (xlate M cpu mem va w el)
  unfolding xlate
  xlate-Untouched cpu mem va w el =
      Ensures-bind (translate M cpu mem va _ el) _ (translate-Untouched cpu mem va _ el)
        λ r h. Ensures-some (recorded-Untouched r.0 r.1 r.2 va w h)

  abbrev Keeps : CpuState → Option (ℕ × CpuState × Mem) → Type 0
  Keeps cpu = Ensures (λ (r : ℕ × CpuState × Mem). Untouched cpu r.1)

  abbrev Saves : CpuState → Option (CpuState × Mem) → Type 0
  Saves cpu = Ensures (λ (r : CpuState × Mem). Untouched cpu r.0)

  gather_from-Untouched :
      (fuel : ℕ) (cpu cpu' : CpuState) (mem : Mem) (va n el done val : ℕ)
      → Untouched cpu cpu'
      → Keeps cpu (gather_from M fuel cpu' mem va n el done val)
  unfolding gather_from
  gather_from-Untouched zero cpu cpu' mem va n el done val h = Ensures-none
  gather_from-Untouched (suc fuel) cpu cpu' mem va n el done val h =
      Ensures-if (ltb done n) _ _
        (λ more. Ensures-check (ltb (page_end (va + done)) (2 ^ 64)) _ λ fits.
          Ensures-bind (xlate M cpu' mem (va + done) false el) _
            (xlate-Untouched cpu' mem _ false el)
            λ r u.
              Ensures-match r.0 _ _ (λ fault. Ensures-some (Untouched-trans h u))
                λ pa e. Ensures-after (gather_bytes M _ r.2 pa done val) _ λ s e'.
                  gather_from-Untouched fuel cpu r.1 s.1 va n el _ s.0 (Untouched-trans h u))
        λ end. Ensures-some h

  scatter_from-Untouched :
      (fuel : ℕ) (cpu cpu' : CpuState) (mem : Mem) (va n val el done : ℕ)
      → Untouched cpu cpu'
      → Saves cpu (scatter_from M fuel cpu' mem va n val el done)
  unfolding scatter_from
  scatter_from-Untouched zero cpu cpu' mem va n val el done h = Ensures-none
  scatter_from-Untouched (suc fuel) cpu cpu' mem va n val el done h =
      Ensures-if (ltb done n) _ _
        (λ more. Ensures-check (ltb (page_end (va + done)) (2 ^ 64)) _ λ fits.
          Ensures-bind (xlate M cpu' mem (va + done) true el) _ (xlate-Untouched cpu' mem _ true el)
            λ r u.
              Ensures-match r.0 _ _ (λ fault. Ensures-some (Untouched-trans h u))
                λ pa e. Ensures-after (scatter_bytes M _ r.2 pa done val) _ λ mem″ e'.
                  scatter_from-Untouched fuel cpu r.1 mem″ va n val el _ (Untouched-trans h u))
        λ end. Ensures-some h

  pub read_vec-Untouched :
      (cpu : CpuState) (mem : Mem) (va log2 : ℕ) → Keeps cpu (read_vec M cpu mem va log2)
  unfolding read_vec gather
  read_vec-Untouched cpu mem va log2 =
      gather_from-Untouched _ cpu cpu mem va _ cpu.el 0 0 (Untouched-refl cpu)

  pub write_vec-Untouched :
      (cpu : CpuState) (mem : Mem) (va log2 val : ℕ) → Saves cpu (write_vec M cpu mem va log2 val)
  unfolding write_vec scatter
  write_vec-Untouched cpu mem va log2 val =
      scatter_from-Untouched _ cpu cpu mem va _ val cpu.el 0 (Untouched-refl cpu)

  pub read_at-Untouched :
      (cpu : CpuState) (mem : Mem) (va size el : ℕ) → Keeps cpu (read_at M cpu mem va size el)
  unfolding read_at read_within read_across gather
  read_at-Untouched cpu mem va size el =
      Ensures-if (in_one_page va (1 <<< size)) _ _
        (λ within.
          Ensures-bind (xlate M cpu mem va false el) _ (xlate-Untouched cpu mem va false el) λ r u.
            Ensures-match r.0 _ _ (λ fault. Ensures-some u)
              λ pa e. Ensures-after (read_sized M r.2 pa size) _ λ s e'. Ensures-some u)
        λ across.
          Ensures-bind _ _
            (gather_from-Untouched _ cpu cpu mem va (1 <<< size) el 0 0 (Untouched-refl cpu))
            λ r u. Ensures-some u

  pub write_at-Untouched :
      (cpu : CpuState) (mem : Mem) (va size val el : ℕ)
      → Saves cpu (write_at M cpu mem va size val el)
  unfolding write_at write_within scatter
  write_at-Untouched cpu mem va size val el =
      Ensures-if (in_one_page va (1 <<< size)) _ _
        (λ within.
          Ensures-bind (xlate M cpu mem va true el) _ (xlate-Untouched cpu mem va true el) λ r u.
            Ensures-match r.0 _ _ (λ fault. Ensures-some u)
              λ pa e. Ensures-after (write_sized M r.2 pa size val) _ λ s e'. Ensures-some u)
        λ across. scatter_from-Untouched _ cpu cpu mem va (1 <<< size) val el 0 (Untouched-refl cpu)

  pub read-Untouched :
      (cpu : CpuState) (mem : Mem) (va size : ℕ) → Keeps cpu (read M cpu mem va size)
  unfolding read
  read-Untouched cpu mem va size = read_at-Untouched cpu mem va size cpu.el

  pub write-Untouched :
      (cpu : CpuState) (mem : Mem) (va size val : ℕ) → Saves cpu (write M cpu mem va size val)
  unfolding write
  write-Untouched cpu mem va size val = write_at-Untouched cpu mem va size val cpu.el

  zero_from-Untouched :
      (left : ℕ) (cpu cpu' : CpuState) (mem : Mem) (va : ℕ)
      → Untouched cpu cpu'
      → Saves cpu (zero_from M left cpu' mem va)
  unfolding zero_from
  zero_from-Untouched zero cpu cpu' mem va h = Ensures-some h
  zero_from-Untouched (suc left) cpu cpu' mem va h =
      Ensures-bind _ _ (write-Untouched cpu' mem va 0 0) λ r u.
        Ensures-if (aborted r.0) _ _ (λ fault. Ensures-some (Untouched-trans h u))
          λ clean. zero_from-Untouched left cpu r.0 r.1 (va + 1) (Untouched-trans h u)

  pub dc_zva-Untouched : (cpu : CpuState) (mem : Mem) (rt : ℕ) → Saves cpu (dc_zva M cpu mem rt)
  unfolding dc_zva
  dc_zva-Untouched cpu mem rt =
      Ensures-after (read_gpr cpu rt false) _
        λ x e. zero_from-Untouched _ cpu cpu mem _ (Untouched-refl cpu)
