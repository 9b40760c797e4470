-- ===== src/Interp/Ldst/Retry/Classes.antt =====
-- Every class of load and store leaves the core as it was when its access faults, but for the
-- exclusive stores.
use v.Base.{ℕ, ◌≡◌, ◌∙◌}
use v.Base.{Bool, true, false, Option, none, some}
use v.Base.{get_elem?, set?}
use v.Base.Ensures.{Ensures-some, Ensures-if, Ensures-after, Ensures-bind}
use v.Cpu.State.{CpuState, read_gpr}
use v.Decoder.Insn.{AddrMode}
use v.Interp.Memory.{GuestMem}
use v.Interp.MemAccess.{aborted}
use v.Interp.MemAccess.Frame.{read-Untouched}
use v.Interp.MemAccess.Frame.{write-Untouched, read_at-Untouched, write_at-Untouched}
use v.Interp.MemAccess.Frame.{read_vec-Untouched, write_vec-Untouched}
use v.Interp.MemAccess.{read_unpriv, write_unpriv}
use v.Interp.Ldst
use v.Interp.Ldst.{writeback_base, effective_address, extend_loaded, written_back}
use v.Interp.Ldst.Retry.{Restarts, Completes, Restarts-last}
use v.Interp.Ldst.Retry.{Completes-write_result, write_gpr-aborted}

module _ (M : GuestMem) where
  open M use {Mem}

  written_back-Completes :
      (cpu : CpuState) (mem : Mem) (wb : Option (ℕ × ℕ))
      → aborted cpu ≡ false
      → Completes (written_back M cpu mem wb)
  unfolding written_back writeback_base
  written_back-Completes cpu mem none clean = Ensures-some clean
  written_back-Completes cpu mem (some (rn, base)) clean =
      rw clean
        (Ensures-bind _ _ (write_gpr-aborted cpu rn true base) λ c e. Ensures-some (e ∙ clean))

  load_vec-Restarts :
      (cpu : CpuState) (mem : Mem) (size rt ea : ℕ) (wb : Option (ℕ × ℕ))
      → Restarts cpu (Ldst.load_vec M cpu mem size rt ea wb)
  unfolding Ldst.load_vec
  load_vec-Restarts cpu mem size rt ea wb =
      Ensures-bind _ _ (read_vec-Untouched M cpu mem ea size) λ r u. Restarts-last r.2 _ u λ clean.
        Ensures-after (set? r.1.vregs rt r.0) _ λ vs e. written_back-Completes _ r.2 wb clean

  store_vec-Restarts :
      (cpu : CpuState) (mem : Mem) (size rt ea : ℕ) (wb : Option (ℕ × ℕ))
      → Restarts cpu (Ldst.store_vec M cpu mem size rt ea wb)
  unfolding Ldst.store_vec
  store_vec-Restarts cpu mem size rt ea wb = Ensures-after (get_elem? cpu.vregs rt) _ λ val e.
      Ensures-bind _ _ (write_vec-Untouched M cpu mem ea size val)
        λ r u. Restarts-last r.1 _ u λ clean. written_back-Completes _ r.1 wb clean

  load-Restarts :
      (cpu : CpuState) (mem : Mem) (size : ℕ) (signed dst64 unpriv : Bool) (rt ea : ℕ)
      (wb : Option (ℕ × ℕ))
      → Restarts cpu (Ldst.load M cpu mem size signed dst64 unpriv rt ea wb)
  unfolding Ldst.load read_unpriv
  load-Restarts cpu mem size signed dst64 unpriv rt ea wb =
      Ensures-bind _ _
        (Ensures-if unpriv _ _ (λ _. read_at-Untouched M cpu mem ea size 0)
          λ _. read-Untouched M cpu mem ea size)
        λ r u. Restarts-last r.2 _ u λ clean.
          Ensures-after (extend_loaded r.0 signed size) _ λ value e.
            Completes-write_result r.1 dst64 rt value _ clean
              λ c clean'. written_back-Completes c r.2 wb clean'

  store-Restarts :
      (cpu : CpuState) (mem : Mem) (size : ℕ) (unpriv : Bool) (rt ea : ℕ) (wb : Option (ℕ × ℕ))
      → Restarts cpu (Ldst.store M cpu mem size unpriv rt ea wb)
  unfolding Ldst.store write_unpriv
  store-Restarts cpu mem size unpriv rt ea wb = Ensures-after (read_gpr cpu rt false) _ λ val e.
      Ensures-bind _ _
        (Ensures-if unpriv _ _ (λ _. write_at-Untouched M cpu mem ea size val 0)
          λ _. write-Untouched M cpu mem ea size val)
        λ r u. Restarts-last r.1 _ u λ clean. written_back-Completes _ r.1 wb clean

  -- Whatever the addressing mode and the form, a load or store of one register that ends with an
  -- abort pending has changed nothing of the core but the translation cache and the abort: no
  -- destination, base, flag or monitor.
  pub load_store-Restarts :
      (cpu : CpuState) (mem : Mem) (size : ℕ) (is_load signed dst64 vec unpriv : Bool) (rt : ℕ)
      (addr : AddrMode) (pc : ℕ)
      → Restarts cpu (Ldst.exec M cpu mem size is_load signed dst64 vec unpriv rt addr pc)
  unfolding Ldst.exec
  load_store-Restarts cpu mem size is_load signed dst64 vec unpriv rt addr pc =
      Ensures-after (effective_address cpu addr pc) _ λ a e.
        Ensures-if vec _ _
          (λ _.
            Ensures-if is_load _ _ (λ _. load_vec-Restarts cpu mem size rt a.0 a.1)
              λ _. store_vec-Restarts cpu mem size rt a.0 a.1)
          λ _.
            Ensures-if is_load _ _ (λ _. load-Restarts cpu mem size signed dst64 unpriv rt a.0 a.1)
              λ _. store-Restarts cpu mem size unpriv rt a.0 a.1
