-- ===== src/Interp/Run/Faults.antt =====
-- Where the access of an instruction that can start over faults, the step delivers a data abort from
-- the state before the instruction.
use v.Base.{ℕ, ◌<◌, ◌≡◌, refl, sym, ap, ◌∙◌, Bool, true, false, Option, none, some, ok, arith}
use v.Base.{◌+◌, ◌*◌, ◌%◌, ◌^◌, ◌<<<◌, ◌==◌, if◌then◌else◌, bit_or, bit_and, bit_of}
use v.Base.Bits.{bit_and_low, bit_or_add}
use v.Base.Ensures.{Ensures, Ensures-bind, Ensures-some, Ensures-weaken}
use mathlib.Core.Path.{subst}
use v.Cpu.State.{CpuState, Abort, pstate, read_sp_el, set_el_spsel, sp_index}
use v.Cpu.State.Banking.{IsValid}
use v.Decoder.Branch.{sysreg_key}
use v.Decoder.Decode.{decode}
use v.Decoder.Insn.{Insn}
use v.Interp.Exception.{key_elr_el1, key_spsr_el1, key_far_el1, key_esr_el1, key_vbar_el1}
use v.Interp.Exception.{get_sysreg}
use v.Interp.Exception.{data_abort, take_exception, enter_el1}
use v.Interp.Exception.Return.{take_exception-Entered}
use v.Interp.Execute.{execute, sequential}
use v.Interp.Integer.{Outcome}
use v.Interp.Ldst.Retry.{Restarts}
use v.Interp.Ldst.Retry.Classes.{load_store-Restarts}
use v.Interp.Ldst.Retry.Pairs.{load_store_pair-Restarts}
use v.Interp.Ldst.Retry.Swaps.{atomic-Restarts, compare_swap-Restarts, cas_pair-Restarts}
use v.Interp.Ldst.Retry.Swaps.{load_exclusive-Restarts, load_exclusive_pair-Restarts}
use v.Interp.MemAccess.{is_some, aborted}
use v.Interp.MemAccess.Frame.{Untouched, Untouched-trans, translate-Untouched, dc_zva-Untouched}
use v.Interp.Memory.{GuestMem}
use v.Interp.Mmu.{Access, translate}
use v.Interp.Run.{Step, refused, retire, vectored, fetched, step, executed_insn}

-- The loads and stores of one register and of a pair, the atomics, the compares and swaps, the
-- exclusive loads and the zeroing of a block. The exclusive stores and the vector structures are
-- not among them: these write a status and clear the monitor, or keep the elements loaded, whatever
-- access of theirs faults.
abbrev pub is_restartable : Insn → Bool
is_restartable (Insn.load_store size is_load signed dst64 vec unpriv rt addr) = true
is_restartable (Insn.load_store_pair is_load signed width8 vec vesize rt rt2 rn offset index) = true
is_restartable (Insn.atomic_rmw size op rs rn rt) = true
is_restartable (Insn.compare_swap size rs rn rt) = true
is_restartable (Insn.compare_swap_pair sz rs rn rt) = true
is_restartable (Insn.load_exclusive size rt rn) = true
is_restartable (Insn.load_exclusive_pair size rt rt2 rn) = true
is_restartable (Insn.dc_zva rt) = true
is_restartable _ = false

-- The syndrome of a data abort at 26 bits up: 0x24 from EL0 and 0x25 from EL1, the length bit, and
-- below them the direction of the access and the fault status.
abbrev pub syndrome_of : ℕ → Abort → ℕ
syndrome_of el abort =
    (if el == 0 then 0x24 else 0x25) * 2 ^ 26
    + 2 ^ 25
    + (if abort.write then 64 else 0)
    + abort.fsc % 64

-- The synchronous vector: 0x400 from a lower level, and at EL1 0x200 or 0 as the stack selection is.
abbrev pub vector_of : CpuState → ℕ
vector_of cpu =
    (get_sysreg cpu.sysregs key_vbar_el1
      + (if cpu.el == 0 then 0x400 else if cpu.spsel then 0x200 else 0))
    % 2 ^ 64

-- What the handler of a data abort finds: it runs at EL1 from the synchronous vector with all masks
-- set; the return address and the PSTATE are those of the instruction, the syndrome says a data
-- abort, its direction and its status, FAR holds the address, and the registers are as they were.
pub record FaultTaken (cpu : CpuState) (abort : Abort) (cpu' : CpuState) : Type 0 where
  pub vector : cpu'.pc ≡ vector_of cpu
  pub level : (cpu'.el ≡ 1) × (cpu'.spsel ≡ true) × (cpu'.daif ≡ 0b1111)
  pub link : cpu'.sysregs key_elr_el1 ≡ some cpu.pc
  pub saved : cpu'.sysregs key_spsr_el1 ≡ some (pstate cpu)
  pub syndrome : cpu'.sysregs key_esr_el1 ≡ some (syndrome_of cpu.el abort)
  pub address : cpu'.sysregs key_far_el1 ≡ some abort.far
  pub registers : (cpu'.x ≡ cpu.x) × (cpu'.flags ≡ cpu.flags) × (cpu'.vregs ≡ cpu.vregs)
  pub banks : (i : ℕ) → i < 4 → read_sp_el cpu' i ≡ read_sp_el cpu i
  pub taken : cpu'.pending_abort ≡ none

taken_frame :
    (cpu : CpuState) (ec iss addr : ℕ)
    → let cpu' = (take_exception cpu ec iss addr).0 in
      (cpu'.vregs ≡ cpu.vregs)
      × (cpu'.pending_abort ≡ cpu.pending_abort)
      × (cpu'.sysregs key_far_el1 ≡ cpu.sysregs key_far_el1)
      × (cpu'.sysregs key_esr_el1 ≡ some (bit_or (bit_or (ec <<< 26) (1 <<< 25)) iss))
      × ((take_exception cpu ec iss addr).1 ≡ vector_of cpu)
unfolding take_exception enter_el1 set_el_spsel sysreg_key
taken_frame cpu ec iss addr = ground arith

syndrome-eq :
    (el : ℕ) (abort : Abort) (ec : ℕ)
    → ec ≡ (if el == 0 then 0x24 else 0x25)
    → bit_or
        (bit_or (ec <<< 26) (1 <<< 25))
        (bit_or (bit_of abort.write <<< 6) (bit_and abort.fsc 0x3f))
      ≡ syndrome_of el abort
syndrome-eq el abort ec e = ground (
  arith,
  bit_and_low 6 abort.fsc,
  bit_or_add 6 (bit_of abort.write <<< 6) (abort.fsc % 64),
  bit_or_add 26 (ec <<< 26) (1 <<< 25),
  bit_or_add 25 (ec * 2 ^ 26 + 2 ^ 25) (bit_of abort.write * 64 + abort.fsc % 64),
)

not_refused : (insn : Insn) → is_restartable insn ≡ true → refused insn ≡ none
unfolding refused
not_refused (Insn.unsupported word) w = cc
not_refused _ w = refl

none_taken {ℓ κ} :
    {A : Type ℓ} {B : Type κ} (o : Option A) (f : A → B) (n : B)
    → o ≡ none
    → (elim o [ some a ↦ f a | none ↦ n ]) ≡ n
none_taken none f n e = refl
none_taken (some a) f n e = cc

exception-FaultTaken :
    (cpu start : CpuState) (abort : Abort) (ec iss : ℕ)
    → IsValid start
    → pstate start ≡ pstate cpu
    → ((i : ℕ) → read_sp_el start i ≡ read_sp_el cpu i)
    → (start.x ≡ cpu.x) × (start.flags ≡ cpu.flags) × (start.vregs ≡ cpu.vregs)
    → (start.pending_abort ≡ none) × (start.sysregs key_far_el1 ≡ some abort.far)
    → vector_of start ≡ vector_of cpu
    → bit_or (bit_or (ec <<< 26) (1 <<< 25)) iss ≡ syndrome_of cpu.el abort
    → FaultTaken cpu abort (vectored (take_exception start ec iss cpu.pc))
unfolding sysreg_key read_sp_el sp_index
exception-FaultTaken cpu start abort ec iss h packed banks regs left vec syn =
    let e = take_exception-Entered start ec iss cpu.pc h in
    let f = taken_frame start ec iss cpu.pc in
    record {
      vector = f.4 ∙ vec;
      level = (e.level.0, e.level.1, e.masked);
      link = e.link;
      saved = e.saved ∙ ap some packed;
      syndrome = f.3 ∙ ap some syn;
      address = f.2 ∙ left.1;
      registers = (e.kept.0 ∙ regs.0, e.kept.2 ∙ regs.1, f.0 ∙ regs.2);
      banks = λ i lt. e.banks i lt ∙ banks i;
      taken = f.1 ∙ left.0;
    }

data_abort-FaultTaken :
    (cpu faulted : CpuState) (abort : Abort)
    → IsValid cpu
    → Untouched cpu faulted
    → FaultTaken cpu abort
        (vectored (data_abort (record faulted { pending_abort = none }) cpu.pc abort))
unfolding data_abort pstate read_sp_el sp_index sysreg_key
data_abort-FaultTaken cpu faulted abort h u =
    subst {A = CpuState}
      (λ z.
        FaultTaken cpu abort
          (vectored (data_abort (record z { pending_abort = none }) cpu.pc abort)))
      (sym u.same)
      (exception-FaultTaken cpu _ abort _ _
        (record { banks = h.banks; level = h.level; masks = h.masks }) refl (λ i. refl)
        (refl, refl, refl) (refl, refl) refl (syndrome-eq cpu.el abort _ refl))

module _ (M : GuestMem) (others : CpuState → Insn → ℕ → Outcome) where
  open M use {Mem, read_u32}

  -- What execution ensures of an instruction with accesses.
  abbrev Resumes : CpuState → Option (CpuState × Option ℕ × Mem) → Type 0
  Resumes cpu = Ensures (λ (r : CpuState × Option ℕ × Mem). aborted r.0 ≡ true → Untouched cpu r.0)

  sequential-Resumes :
      (cpu : CpuState) (o : Option (CpuState × Mem)) → Restarts cpu o → Resumes cpu (sequential o)
  unfolding sequential
  sequential-Resumes cpu o h = Ensures-bind o _ h λ r f. Ensures-some f

  execute-Resumes :
      (cpu : CpuState) (mem : Mem) (insn : Insn) (pc : ℕ)
      → is_restartable insn ≡ true
      → Resumes cpu (execute M others cpu mem insn pc)
  unfolding execute
  execute-Resumes cpu mem (Insn.load_store size is_load signed dst64 vec unpriv rt addr) pc w =
      sequential-Resumes cpu _
        (load_store-Restarts M cpu mem size is_load signed dst64 vec unpriv rt addr pc)
  execute-Resumes cpu mem
        (Insn.load_store_pair is_load signed width8 vec vesize rt rt2 rn offset index) pc w =
      sequential-Resumes cpu _
        (load_store_pair-Restarts M cpu mem is_load signed width8 vec vesize rt rt2 rn offset index)
  execute-Resumes cpu mem (Insn.atomic_rmw size op rs rn rt) pc w =
      sequential-Resumes cpu _ (atomic-Restarts M cpu mem size op rs rn rt)
  execute-Resumes cpu mem (Insn.compare_swap size rs rn rt) pc w =
      sequential-Resumes cpu _ (compare_swap-Restarts M cpu mem size rs rn rt)
  execute-Resumes cpu mem (Insn.compare_swap_pair sz rs rn rt) pc w =
      sequential-Resumes cpu _ (cas_pair-Restarts M cpu mem sz rs rn rt)
  execute-Resumes cpu mem (Insn.load_exclusive size rt rn) pc w =
      sequential-Resumes cpu _ (load_exclusive-Restarts M cpu mem size rt rn)
  execute-Resumes cpu mem (Insn.load_exclusive_pair size rt rt2 rn) pc w =
      sequential-Resumes cpu _ (load_exclusive_pair-Restarts M cpu mem size rt rt2 rn)
  execute-Resumes cpu mem (Insn.dc_zva rt) pc w =
      sequential-Resumes cpu _ (Ensures-weaken (dc_zva-Untouched M cpu mem rt) λ r u fault. u)
  execute-Resumes cpu mem _ pc w = cc

  -- A load or store of one register or of a pair, an atomic, a compare and swap, an exclusive load
  -- or a zeroing of a block that leaves an abort pending has changed nothing of the core but the
  -- translation cache and the abort: no destination, base, flag, banked register or monitor.
  pub execute-Untouched :
      (cpu faulted : CpuState) (mem mem' : Mem) (insn : Insn) (pc : ℕ) (target : Option ℕ)
      → is_restartable insn ≡ true
      → execute M others cpu mem insn pc ≡ some (faulted, target, mem')
      → aborted faulted ≡ true
      → Untouched cpu faulted
  execute-Untouched cpu faulted mem mem' insn pc target w e f =
      (execute-Resumes cpu mem insn pc w).at _ e f

  executed_insn-retire :
      (cpu faulted : CpuState) (mem mem' : Mem) (insn : Insn) (pc : ℕ) (target : Option ℕ)
      (abort : Abort)
      → execute M others cpu mem insn pc ≡ some (faulted, target, mem')
      → faulted.pending_abort ≡ some abort
      → executed_insn M others cpu mem insn pc
        ≡ some (vectored (data_abort (record faulted { pending_abort = none }) pc abort), mem')
  unfolding executed_insn retire
  executed_insn-retire cpu faulted mem mem' insn pc target abort e f = rw (e, f) refl

  fetched-next :
      (cpu cpu' : CpuState) (mem mem' : Mem) (word pc : ℕ)
      → is_restartable (decode word) ≡ true
      → executed_insn M others cpu mem (decode word) pc ≡ some (cpu', mem')
      → fetched M others cpu mem word pc ≡ some (Step.next cpu'.pc, cpu', mem')
  unfolding fetched
  fetched-next cpu cpu' mem mem' word pc w e =
      none_taken (refused (decode word)) _ _ (not_refused (decode word) w) ∙ rw e refl

  -- From a valid state, let the fetch of a step translate and read a word that decodes to a load or
  -- store of one register or of a pair, an atomic, a compare and swap, an exclusive load or a
  -- zeroing of a block, and let its execution leave an abort pending. Then the step delivers a data
  -- abort: it ends at the synchronous vector for the interrupted level and stack selection, at EL1
  -- with all masks set, with the instruction's own address as the return address, its PSTATE saved,
  -- the data abort's class for that level with the access's direction and status in ESR and the
  -- fault's address in FAR; the general-purpose and vector registers, the flags and the banked
  -- stack pointers are those before the instruction, and no abort is left pending.
  pub step-FaultTaken :
      (cpu ready faulted : CpuState) (mem mem' mem″ mem‴ : Mem) (pa word : ℕ) (target : Option ℕ)
      (abort : Abort)
      → IsValid cpu
      → translate M cpu mem cpu.pc Access.exec cpu.el ≡ some (ok pa, ready, mem')
      → read_u32 mem' pa ≡ some (word, mem″)
      → is_restartable (decode word) ≡ true
      → execute M others ready mem″ (decode word) cpu.pc ≡ some (faulted, target, mem‴)
      → faulted.pending_abort ≡ some abort
      → (cpu' : CpuState) × (step M others cpu mem ≡ some (Step.next cpu'.pc, cpu', mem‴))
        × FaultTaken cpu abort cpu'
  unfolding step
  step-FaultTaken cpu ready faulted mem mem' mem″ mem‴ pa word target abort h t r w e f =
      let v = (translate-Untouched M cpu mem cpu.pc Access.exec cpu.el).at _ t in
      let u = (execute-Resumes ready mem″ (decode word) cpu.pc w).at _ e (ap is_some f) in
      (
        _,
        rw (t, r)
            (fetched-next _ _ _ _ word cpu.pc w (executed_insn-retire _ _ _ _ _ _ _ abort e f)),
        data_abort-FaultTaken cpu faulted abort h (Untouched-trans v u),
      )
