-- ===== src/Interp/Ldst/Retry/Swaps.antt =====
-- The atomic operations and the exclusive loads leave the core as it was when an access faults.
use v.Base.{ℕ, ◌+◌, ◌-◌, ◌*◌, ◌^◌, ◌<<<◌, ◌≡◌, bit_and}
use v.Base.{Bool, true, false, ◌&&◌, ◌==◌, if◌then◌else◌}
use v.Base.Ensures.{Ensures, Ensures-some, Ensures-if, Ensures-after, Ensures-bind}
use v.Base.Ensures.{Ensures-weaken}
use v.Cpu.State.{CpuState, read_gpr, arm_excl}
use v.Interp.Memory.{GuestMem}
use v.Interp.MemAccess.{aborted}
use v.Interp.MemAccess.Frame.{Untouched, Untouched-trans, read-Untouched}
use v.Interp.MemAccess.Frame.{write-Untouched}
use v.Interp.Ldst.Pair.{second}
use v.Interp.Ldst.Excl
use v.Interp.Ldst.Cas
use v.Interp.Ldst.Cas.{mask_of, returned, returned_pair, swap_pair}
use v.Interp.Ldst.Atomic
use v.Interp.Ldst.Retry.{Restarts, Completes, Completes-Restarts, Restarts-guard, Restarts-last}
use v.Interp.Ldst.Retry.{Restarts-aligned}
use v.Interp.Ldst.Retry.{Completes-write_result}

module _ (M : GuestMem) where
  open M use {Mem}

  returned-Completes :
      (cpu : CpuState) (mem : Mem) (wide : Bool) (rs old : ℕ)
      → aborted cpu ≡ false
      → Completes (returned M cpu mem wide rs old)
  unfolding returned
  returned-Completes cpu mem wide rs old clean =
      Completes-write_result cpu wide rs old _ clean λ c clean'. Ensures-some clean'

  returned_pair-Completes :
      (cpu : CpuState) (mem : Mem) (wide : Bool) (rs old1 old2 : ℕ)
      → aborted cpu ≡ false
      → Completes (returned_pair M cpu mem wide rs old1 old2)
  unfolding returned_pair
  returned_pair-Completes cpu mem wide rs old1 old2 clean =
      Completes-write_result cpu wide rs old1 _ clean λ c clean'.
        Completes-write_result c wide (rs + 1) old2 _ clean' λ c' clean″. Ensures-some clean″

  -- An atomic read-modify-write that ends with an abort pending, at its alignment check, its read
  -- or its write, has changed nothing of the core but the translation cache and the abort.
  pub atomic-Restarts :
      (cpu : CpuState) (mem : Mem) (size op rs rn rt : ℕ)
      → Restarts cpu (Atomic.exec M cpu mem size op rs rn rt)
  unfolding Atomic.exec
  atomic-Restarts cpu mem size op rs rn rt = Ensures-after (read_gpr cpu rn true) _ λ addr e.
      Restarts-aligned M cpu mem addr (1 <<< size) true _ λ checked u.
        Ensures-bind _ _ (read-Untouched M checked mem addr size) λ r v.
          Restarts-guard r.2 _ (Untouched-trans u v) λ clean.
            Ensures-after (read_gpr r.1 rs false) _ λ operand e'.
              Ensures-bind _ _ (write-Untouched M r.1 r.2 addr size _) λ w t.
                Restarts-last w.1 _ (Untouched-trans (Untouched-trans u v) t)
                  λ clean'. returned-Completes w.0 w.1 (size == 3) rt r.0 clean'

  -- A compare and swap that ends with an abort pending, at its alignment check, its read or its
  -- write, has changed nothing of the core but the translation cache and the abort.
  pub compare_swap-Restarts :
      (cpu : CpuState) (mem : Mem) (size rs rn rt : ℕ)
      → Restarts cpu (Cas.exec M cpu mem size rs rn rt)
  unfolding Cas.exec
  compare_swap-Restarts cpu mem size rs rn rt = Ensures-after (read_gpr cpu rn true) _ λ addr e.
      Restarts-aligned M cpu mem addr (1 <<< size) true _ λ checked u.
        Ensures-bind _ _ (read-Untouched M checked mem addr size) λ r v.
          Restarts-guard r.2 _ (Untouched-trans u v) λ clean.
            Ensures-after (read_gpr r.1 rs false) _ λ expected e'.
              Ensures-if (r.0 == bit_and expected (mask_of size)) _ _
                (λ same. Ensures-after (read_gpr r.1 rt false) _ λ val e″.
                  Ensures-bind _ _ (write-Untouched M r.1 r.2 addr size _) λ w t.
                    Restarts-last w.1 _ (Untouched-trans (Untouched-trans u v) t)
                      λ clean'. returned-Completes w.0 w.1 (size == 3) rs r.0 clean')
                λ other. Completes-Restarts (returned-Completes r.1 r.2 (size == 3) rs r.0 clean)

  swap_pair-Untouched :
      (cpu : CpuState) (mem : Mem) (addr size rt : ℕ)
      → Ensures (λ (r : CpuState × Mem). Untouched cpu r.0) (swap_pair M cpu mem addr size rt)
  unfolding swap_pair
  swap_pair-Untouched cpu mem addr size rt = Ensures-after (read_gpr cpu rt false) _ λ new1 e.
      Ensures-after (read_gpr cpu (rt + 1) false) _ λ new2 e'.
        Ensures-bind _ _ (write-Untouched M cpu mem addr size new1) λ r u.
          Ensures-after (second addr (1 <<< size)) _ λ addr2 e″.
            Ensures-weaken (write-Untouched M r.0 r.1 addr2 size new2) λ w v. Untouched-trans u v

  -- A compare and swap of a pair that ends with an abort pending, wherever in it the fault was, has
  -- changed nothing of the core but the translation cache and the abort.
  pub cas_pair-Restarts :
      (cpu : CpuState) (mem : Mem) (sz rs rn rt : ℕ)
      → Restarts cpu (Cas.cas_pair M cpu mem sz rs rn rt)
  unfolding Cas.cas_pair
  cas_pair-Restarts cpu mem sz rs rn rt =
      let size = if sz == 1 then 3 else 2 in
      let mask = if size == 3 then 2 ^ 64 - 1 else 0xffff_ffff in
      Ensures-after (read_gpr cpu rn true) _ λ addr e.
        Restarts-aligned M cpu mem addr (2 * (1 <<< size)) true _ λ checked u.
          Ensures-bind _ _ (read-Untouched M checked mem addr size) λ r v.
            Ensures-after (second addr (1 <<< size)) _ λ addr2 e'.
              Ensures-bind _ _ (read-Untouched M r.1 r.2 addr2 size) λ s t.
                let all = Untouched-trans (Untouched-trans u v) t in
                Restarts-guard s.2 _ all λ clean. Ensures-after (read_gpr s.1 rs false) _ λ cmp1 e″.
                  Ensures-after (read_gpr s.1 (rs + 1) false) _ λ cmp2 f.
                    Ensures-if (r.0 == bit_and cmp1 mask && s.0 == bit_and cmp2 mask) _ _
                      (λ same. Ensures-bind _ _ (swap_pair-Untouched s.1 s.2 addr size rt) λ w x.
                        Restarts-last w.1 _ (Untouched-trans all x)
                          λ clean'. returned_pair-Completes w.0 w.1 _ rs r.0 s.0 clean')
                      λ other.
                        Completes-Restarts (returned_pair-Completes s.1 s.2 _ rs r.0 s.0 clean)

  -- An exclusive load that ends with an abort pending has changed nothing of the core but the
  -- translation cache and the abort; the monitor is not armed.
  pub load_exclusive-Restarts :
      (cpu : CpuState) (mem : Mem) (size rt rn : ℕ) → Restarts cpu (Excl.load M cpu mem size rt rn)
  unfolding Excl.load arm_excl
  load_exclusive-Restarts cpu mem size rt rn = Ensures-after (read_gpr cpu rn true) _ λ addr e.
      Restarts-aligned M cpu mem addr (1 <<< size) false _ λ checked u.
        Ensures-bind _ _ (read-Untouched M checked mem addr size) λ r v.
          Restarts-last r.2 _ (Untouched-trans u v) λ clean.
            Completes-write_result _ (size == 3) rt r.0 _ clean λ c clean'. Ensures-some clean'

  pub load_exclusive_pair-Restarts :
      (cpu : CpuState) (mem : Mem) (size rt rt2 rn : ℕ)
      → Restarts cpu (Excl.load_pair M cpu mem size rt rt2 rn)
  unfolding Excl.load_pair arm_excl
  load_exclusive_pair-Restarts cpu mem size rt rt2 rn =
      Ensures-after (read_gpr cpu rn true) _ λ addr e.
        Restarts-aligned M cpu mem addr (2 * (1 <<< size)) false _ λ checked u.
          Ensures-bind _ _ (read-Untouched M checked mem addr size) λ r v.
            Ensures-after (second addr (1 <<< size)) _ λ addr2 e'.
              Ensures-bind _ _ (read-Untouched M r.1 r.2 addr2 size) λ s t.
                Restarts-last s.2 _ (Untouched-trans (Untouched-trans u v) t) λ clean.
                  Completes-write_result _ (size == 3) rt r.0 _ clean λ c clean'.
                    Completes-write_result c (size == 3) rt2 s.0 _ clean'
                      λ c' clean″. Ensures-some clean″
