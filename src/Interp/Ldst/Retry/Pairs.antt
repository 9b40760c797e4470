-- ===== src/Interp/Ldst/Retry/Pairs.antt =====
-- A load or store of a pair leaves the core as it was when an access faults.
use v.Base.{wrapping_add, ℕ, ◌<<<◌, ◌≡◌, ◌∙◌}
use v.Base.{Bool, true, false, ◌||◌, if◌then◌else◌}
use v.Base.{get_elem?, set?}
use v.Base.Ensures.{Ensures, Ensures-some, Ensures-if, Ensures-after, Ensures-bind}
use v.Base.Ensures.{Ensures-weaken}
use v.Cpu.State.{CpuState, read_gpr, write_gpr}
use v.Decoder.Insn.{PairIndex}
use v.Interp.Memory.{GuestMem}
use v.Interp.MemAccess.{aborted}
use v.Interp.MemAccess.Frame.{Untouched, Untouched-trans, read-Untouched}
use v.Interp.MemAccess.Frame.{write-Untouched}
use v.Interp.MemAccess.Frame.{read_vec-Untouched, write_vec-Untouched}
use v.Interp.Ldst.Pair
use v.Interp.Ldst.Pair.{second, do_writeback, pair_address, pair_size, load_elem, ended}
use v.Interp.Ldst.Retry.{Restarts, Completes, Restarts-last}
use v.Interp.Ldst.Retry.{Completes-write_result, write_gpr-aborted}

module _ (M : GuestMem) (index : PairIndex) (rn base offset : ℕ) where
  open M use {Mem}

  do_writeback-aborted :
      (cpu : CpuState)
      → aborted cpu ≡ false
      → Ensures (λ (c : CpuState). aborted c ≡ false) (do_writeback cpu index rn base offset)
  unfolding do_writeback
  do_writeback-aborted cpu clean = by_index index
    where
      written :
          Ensures
            (λ (c : CpuState). aborted c ≡ false)
            (write_gpr cpu rn true (wrapping_add base offset))
      written = Ensures-weaken (write_gpr-aborted cpu rn true _) λ c e. e ∙ clean

      by_index :
          (i : PairIndex)
          → Ensures (λ (c : CpuState). aborted c ≡ false) (do_writeback cpu i rn base offset)
      by_index PairIndex.offset = Ensures-some clean
      by_index PairIndex.pre = rw clean written
      by_index PairIndex.post = rw clean written

  ended-Completes :
      (cpu : CpuState) (mem : Mem)
      → aborted cpu ≡ false
      → Completes (ended M index rn base offset cpu mem)
  unfolding ended
  ended-Completes cpu mem clean =
      Ensures-bind _ _ (do_writeback-aborted cpu clean) λ c clean'. Ensures-some clean'

  load_elem-Untouched :
      (cpu : CpuState) (mem : Mem) (addr : ℕ) (width8 signed : Bool)
      → Ensures
          (λ (r : ℕ × CpuState × Mem). Untouched cpu r.1)
          (load_elem M cpu mem addr width8 signed)
  unfolding load_elem
  load_elem-Untouched cpu mem addr width8 signed =
      Ensures-bind _ _ (read-Untouched M cpu mem addr (pair_size width8)) λ r u. Ensures-some u

  load_vec-Restarts :
      (cpu : CpuState) (mem : Mem) (vesize rt rt2 ea : ℕ)
      → Restarts cpu (Pair.load_vec M cpu mem vesize rt rt2 ea (ended M index rn base offset))
  unfolding Pair.load_vec
  load_vec-Restarts cpu mem vesize rt rt2 ea =
      Ensures-bind _ _ (read_vec-Untouched M cpu mem ea vesize) λ r u.
        Ensures-after (second ea (1 <<< vesize)) _ λ ea2 e.
          Ensures-bind _ _ (read_vec-Untouched M r.1 r.2 ea2 vesize) λ s v.
            Restarts-last s.2 _ (Untouched-trans u v) λ clean.
              Ensures-after (set? s.1.vregs rt r.0) _ λ once e'.
                Ensures-after (set? once rt2 s.0) _ λ twice e″. ended-Completes _ s.2 clean

  store_vec-Restarts :
      (cpu : CpuState) (mem : Mem) (vesize rt rt2 ea : ℕ)
      → Restarts cpu (Pair.store_vec M cpu mem vesize rt rt2 ea (ended M index rn base offset))
  unfolding Pair.store_vec
  store_vec-Restarts cpu mem vesize rt rt2 ea = Ensures-after (get_elem? cpu.vregs rt) _ λ v1 e.
      Ensures-after (get_elem? cpu.vregs rt2) _ λ v2 e'.
        Ensures-bind _ _ (write_vec-Untouched M cpu mem ea vesize v1) λ r u.
          Ensures-after (second ea (1 <<< vesize)) _ λ ea2 e″.
            Ensures-bind _ _ (write_vec-Untouched M r.0 r.1 ea2 vesize v2)
              λ s v. Restarts-last s.1 _ (Untouched-trans u v) λ clean. ended-Completes _ s.1 clean

  load-Restarts :
      (cpu : CpuState) (mem : Mem) (signed width8 : Bool) (rt rt2 ea : ℕ)
      → Restarts cpu (Pair.load M cpu mem signed width8 rt rt2 ea (ended M index rn base offset))
  unfolding Pair.load
  load-Restarts cpu mem signed width8 rt rt2 ea =
      Ensures-bind _ _ (load_elem-Untouched cpu mem ea width8 signed) λ r u.
        Ensures-after (second ea (if width8 then 8 else 4)) _ λ ea2 e.
          Ensures-bind _ _ (load_elem-Untouched r.1 r.2 ea2 width8 signed) λ s v.
            Restarts-last s.2 _ (Untouched-trans u v) λ clean.
              Completes-write_result s.1 (width8 || signed) rt r.0 _ clean λ c clean'.
                Completes-write_result c (width8 || signed) rt2 s.0 _ clean'
                  λ c' clean″. ended-Completes c' s.2 clean″

  store-Restarts :
      (cpu : CpuState) (mem : Mem) (width8 : Bool) (rt rt2 ea : ℕ)
      → Restarts cpu (Pair.store M cpu mem width8 rt rt2 ea (ended M index rn base offset))
  unfolding Pair.store
  store-Restarts cpu mem width8 rt rt2 ea = Ensures-after (read_gpr cpu rt false) _ λ v1 e.
      Ensures-after (read_gpr cpu rt2 false) _ λ v2 e'.
        Ensures-bind _ _ (write-Untouched M cpu mem ea (pair_size width8) v1) λ r u.
          Ensures-after (second ea (if width8 then 8 else 4)) _ λ ea2 e″.
            Ensures-bind _ _ (write-Untouched M r.0 r.1 ea2 (pair_size width8) v2)
              λ s v. Restarts-last s.1 _ (Untouched-trans u v) λ clean. ended-Completes _ s.1 clean

module _ (M : GuestMem) where
  open M use {Mem}

  -- A load or store of a pair, in each of its forms, that ends with an abort pending, at its first
  -- or its second element, has changed nothing of the core but the translation cache and the abort:
  -- no destination and no base.
  pub load_store_pair-Restarts :
      (cpu : CpuState) (mem : Mem) (is_load signed width8 vec : Bool) (vesize rt rt2 rn offset : ℕ)
      (index : PairIndex)
      → Restarts cpu (Pair.exec M cpu mem is_load signed width8 vec vesize rt rt2 rn offset index)
  unfolding Pair.exec
  load_store_pair-Restarts cpu mem is_load signed width8 vec vesize rt rt2 rn offset index =
      Ensures-after (read_gpr cpu rn true) _ λ base e.
        Ensures-if vec _ _
          (λ _.
            Ensures-if is_load _ _
              (λ _. load_vec-Restarts M index rn base offset cpu mem vesize rt rt2 _)
              λ _. store_vec-Restarts M index rn base offset cpu mem vesize rt rt2 _)
          λ _.
            Ensures-if is_load _ _
              (λ _. load-Restarts M index rn base offset cpu mem signed width8 rt rt2 _)
              λ _. store-Restarts M index rn base offset cpu mem width8 rt rt2 _
