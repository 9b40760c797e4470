-- ===== src/Interp/Simd/Struct/Retry.antt =====
-- A structure access that faults at some element may have loaded the elements before it, but has
-- moved no base register, so the instruction starts over from the same address.
use v.Base.{ℕ, zero, suc, ◌+◌, ◌*◌, ◌%◌, ◌<<<◌, ◌≡◌, refl, sym, ap, ◌∙◌, List}
use v.Base.{Bool, true, false, not, ◌&&◌, Option, some, ◌==◌, if◌then◌else◌, ◌>>=◌}
use v.Base.{wrapping_add, get_elem?, set?}
use v.Base.Ensures.{Ensures, Ensures-some, Ensures-if, Ensures-after, Ensures-bind}
use v.Base.Ensures.{Ensures-weaken}
use v.Cpu.State.{CpuState, read_gpr}
use v.Interp.Memory.{GuestMem}
use v.Interp.MemAccess.{aborted}
use v.Interp.MemAccess.Frame.{Untouched, read-Untouched, write-Untouched}
use v.Interp.Ldst.Retry.{write_gpr-aborted}
use v.Interp.Simd.Struct.{set_elem, get_elem, set_bytes, zero_upper, post_index}
use v.Interp.Simd.Struct.{load_into}
use v.Interp.Simd.Struct.{store_from, multi_element, multi_from, multi, single_element}
use v.Interp.Simd.Struct.{single_from}
use v.Interp.Simd.Struct.{single}

-- The two states agree but for the vector registers, the cache and the abort.
pub record KeepsBase (cpu cpu' : CpuState) : Type 0 where
  pub same :
      cpu' ≡ record cpu { tlb = cpu'.tlb; pending_abort = cpu'.pending_abort; vregs = cpu'.vregs }

KeepsBase-trans : {a b c : CpuState} → KeepsBase a b → KeepsBase b c → KeepsBase a c
KeepsBase-trans {a} {b} {c} ab bc = record {
  same =
      bc.same
      ∙ ap {A = CpuState}
          (λ z. record z { tlb = c.tlb; pending_abort = c.pending_abort; vregs = c.vregs }) ab.same;
}

Untouched-KeepsBase : {a b : CpuState} → Untouched a b → KeepsBase a b
Untouched-KeepsBase {a} {b} u = record {
  same =
      u.same
      ∙ ap {A = List ℕ}
          (λ vs. record a { tlb = b.tlb; pending_abort = b.pending_abort; vregs = vs })
          (sym (ap {A = CpuState} (λ z. z.vregs) u.same));
}

set_elem-KeepsBase :
    (cpu : CpuState) (tt off size val : ℕ)
    → Ensures (λ (c : CpuState). KeepsBase cpu c) (set_elem cpu tt off size val)
unfolding set_elem
set_elem-KeepsBase cpu tt off size val = Ensures-after (get_elem? cpu.vregs tt) _ λ vreg e.
    Ensures-after (set_bytes (1 <<< size) vreg off 0 val) _ λ vreg' e'.
      Ensures-after (set? cpu.vregs tt vreg') _ λ vregs' e″. Ensures-some (record { same = refl })

zero_upper-aborted :
    (left : ℕ) (cpu : CpuState) (rt k : ℕ)
    → Ensures (λ (c : CpuState). aborted c ≡ aborted cpu) (zero_upper left cpu rt k)
unfolding zero_upper
zero_upper-aborted zero cpu rt k = Ensures-some refl
zero_upper-aborted (suc left) cpu rt k =
    Ensures-after (get_elem? cpu.vregs ((rt + k) % 32)) _ λ vreg e.
      Ensures-after (set? cpu.vregs ((rt + k) % 32) _) _
        λ vregs' e'. zero_upper-aborted left (record cpu { vregs = vregs' }) rt (k + 1)

post_index-aborted :
    (cpu : CpuState) (postidx : Bool) (rm rn start bytes : ℕ)
    → Ensures (λ (c : CpuState). aborted c ≡ aborted cpu) (post_index cpu postidx rm rn start bytes)
unfolding post_index
post_index-aborted cpu postidx rm rn start bytes =
    Ensures-if postidx _ _
      (λ _.
        Ensures-after (if rm == 31 then some bytes else read_gpr cpu rm false) _
          λ inc e. write_gpr-aborted cpu rn true (wrapping_add start inc))
      λ _. Ensures-some refl

module _ (M : GuestMem) where
  open M use {Mem}

  -- What is reached in the loops.
  abbrev Reaches : CpuState → Option (CpuState × Mem) → Type 0
  Reaches cpu = Ensures (λ (r : CpuState × Mem). KeepsBase cpu r.0)

  load_into-KeepsBase :
      (cpu : CpuState) (mem : Mem) (addr size : ℕ) (into : ℕ → CpuState → Option CpuState)
      → ((val : ℕ) (c : CpuState) → Ensures (λ (d : CpuState). KeepsBase c d) (into val c))
      → Reaches cpu (load_into M cpu mem addr size into)
  unfolding load_into
  load_into-KeepsBase cpu mem addr size into h =
      Ensures-bind _ _ (read-Untouched M cpu mem addr size) λ r u.
        Ensures-if (aborted r.1) _ _ (λ _. Ensures-some (Untouched-KeepsBase u))
          λ _.
            Ensures-bind _ _ (h r.0 r.1)
              λ c k. Ensures-some (KeepsBase-trans (Untouched-KeepsBase u) k)

  store_from-KeepsBase :
      (cpu : CpuState) (mem : Mem) (addr size tt off : ℕ)
      → Reaches cpu (store_from M cpu mem addr size tt off)
  unfolding store_from
  store_from-KeepsBase cpu mem addr size tt off =
      Ensures-after (get_elem cpu tt off size) _ λ val e.
        Ensures-weaken (write-Untouched M cpu mem addr size val) λ r u. Untouched-KeepsBase u

  multi_element-KeepsBase :
      (cpu : CpuState) (mem : Mem) (is_load : Bool) (rt size elements selem addr i : ℕ)
      → Reaches cpu (multi_element M cpu mem is_load rt size elements selem addr i)
  unfolding multi_element
  multi_element-KeepsBase cpu mem is_load rt size elements selem addr i =
      Ensures-if is_load _ _
        (λ _. load_into-KeepsBase cpu mem addr size _ λ val c. set_elem-KeepsBase c _ _ size val)
        λ _. store_from-KeepsBase cpu mem addr size _ _

  multi_from-KeepsBase :
      (left : ℕ) (cpu : CpuState) (mem : Mem) (is_load : Bool) (rt size elements selem addr i : ℕ)
      → Reaches cpu (multi_from M left cpu mem is_load rt size elements selem addr i)
  unfolding multi_from
  multi_from-KeepsBase zero cpu mem is_load rt size elements selem addr i =
      Ensures-some (record { same = refl })
  multi_from-KeepsBase (suc left) cpu mem is_load rt size elements selem addr i =
      Ensures-bind _ _ (multi_element-KeepsBase cpu mem is_load rt size elements selem addr i)
        λ r k.
          Ensures-if (aborted r.0) _ _ (λ _. Ensures-some k)
            λ _.
              Ensures-weaken
                (multi_from-KeepsBase left r.0 r.1 is_load rt size elements selem _ (i + 1))
                λ s l. KeepsBase-trans k l

  single_element-KeepsBase :
      (cpu : CpuState) (mem : Mem) (is_load replicate : Bool) (tt size index addr : ℕ) (q : Bool)
      → Reaches cpu (single_element M cpu mem is_load replicate tt size index addr q)
  unfolding single_element
  single_element-KeepsBase cpu mem is_load replicate tt size index addr q =
      Ensures-if replicate _ _
        (λ _. load_into-KeepsBase cpu mem addr size _ λ val c.
          Ensures-after (set? c.vregs tt _) _ λ vregs' e. Ensures-some (record { same = refl }))
        λ _.
          Ensures-if is_load _ _
            (λ _.
              load_into-KeepsBase cpu mem addr size _ λ val c. set_elem-KeepsBase c _ _ size val)
            λ _. store_from-KeepsBase cpu mem addr size _ _

  single_from-KeepsBase :
      (left : ℕ) (cpu : CpuState) (mem : Mem) (is_load replicate : Bool) (tt size index addr : ℕ)
      (q : Bool)
      → Reaches cpu (single_from M left cpu mem is_load replicate tt size index addr q)
  unfolding single_from
  single_from-KeepsBase zero cpu mem is_load replicate tt size index addr q =
      Ensures-some (record { same = refl })
  single_from-KeepsBase (suc left) cpu mem is_load replicate tt size index addr q =
      Ensures-bind _ _ (single_element-KeepsBase cpu mem is_load replicate tt size index addr q)
        λ r k.
          Ensures-if (aborted r.0) _ _ (λ _. Ensures-some k)
            λ _.
              Ensures-weaken (single_from-KeepsBase left r.0 r.1 is_load replicate _ size index _ q)
                λ s l. KeepsBase-trans k l

  -- If the outcome has a pending abort, no register but those of the vector changed.
  abbrev pub StartsOver : CpuState → Option (CpuState × Mem) → Type 0
  StartsOver cpu = Ensures (λ (r : CpuState × Mem). aborted r.0 ≡ true → KeepsBase cpu r.0)

  -- The end of an instruction whose elements were all moved.
  ends_clean :
      {cpu : CpuState} (cpu' : CpuState) (o : Option CpuState) (mem : Mem)
      → aborted cpu' ≡ false
      → Ensures (λ (c : CpuState). aborted c ≡ aborted cpu') o
      → StartsOver cpu (o >>= λ c. some (c, mem))
  ends_clean cpu' o mem clean h = Ensures-bind o _ h λ c e. Ensures-some λ fault. cc

  multi-StartsOver :
      (cpu : CpuState) (mem : Mem) (is_load q postidx : Bool) (rm rn rt size rpt selem : ℕ)
      → StartsOver cpu (multi M cpu mem is_load q postidx rm rn rt size rpt selem)
  unfolding multi
  multi-StartsOver cpu mem is_load q postidx rm rn rt size rpt selem =
      Ensures-after (read_gpr cpu rn true) _ λ start e.
        Ensures-bind _ _ (multi_from-KeepsBase _ cpu mem is_load rt size _ selem start 0) λ r k.
          Ensures-if (aborted r.0) _ _ (λ _. Ensures-some λ _. k)
            λ clean.
              Ensures-bind _ _
                (Ensures-if (is_load && not q) _ _ (λ _. zero_upper-aborted (rpt * selem) r.0 rt 0)
                  λ _. Ensures-some refl)
                λ c e'. ends_clean c _ r.1 (e' ∙ clean) (post_index-aborted c postidx rm rn start _)

  -- Whatever element of a multiple-structure access faults, if the outcome has an abort pending then
  -- the core's state but for the vector registers, the translation cache and the abort is that
  -- before the instruction: the base is not advanced.
  pub multi-KeepsBase :
      (cpu faulted : CpuState) (mem mem' : Mem) (is_load q postidx : Bool)
      (rm rn rt size rpt selem : ℕ)
      → multi M cpu mem is_load q postidx rm rn rt size rpt selem ≡ some (faulted, mem')
      → aborted faulted ≡ true
      → KeepsBase cpu faulted
  multi-KeepsBase cpu faulted mem mem' is_load q postidx rm rn rt size rpt selem =
      (multi-StartsOver cpu mem is_load q postidx rm rn rt size rpt selem).at (faulted, mem')

  single-StartsOver :
      (cpu : CpuState) (mem : Mem) (is_load replicate postidx : Bool)
      (rm rn rt size selem index : ℕ) (q : Bool)
      → StartsOver cpu (single M cpu mem is_load replicate postidx rm rn rt size selem index q)
  unfolding single
  single-StartsOver cpu mem is_load replicate postidx rm rn rt size selem index q =
      Ensures-after (read_gpr cpu rn true) _ λ start e.
        Ensures-bind _ _
          (single_from-KeepsBase selem cpu mem is_load replicate rt size index start q)
          λ r k.
            Ensures-if (aborted r.0) _ _ (λ _. Ensures-some λ _. k)
              λ clean. ends_clean r.0 _ r.1 clean (post_index-aborted r.0 postidx rm rn start _)
