-- ===== src/Interp/Exception/Return.antt =====
-- Exception entry, and entry followed by the return.
use v.Base.{ℕ, ◌<◌, ◌≡◌, refl, ap, ◌∙◌, Bool, true, Option, some, arith}
use v.Cpu.State.{CpuState, pstate, set_pstate, set_el_spsel, read_sp_el, sp_index}
use v.Cpu.State.Banking.{IsValid, sp_index-lt, set_el_spsel-IsValid, read_sp_el-set_el_spsel}
use v.Cpu.State.Pstate.{set_pstate-pstate}
use v.Decoder.Branch.{sysreg_key}
use v.Interp.Exception.{key_elr_el1, key_spsr_el1, insert_sysreg, unwrap_or_zero}
use v.Interp.Exception.{enter_el1, take_exception, take_irq, eret}

-- What the handler finds.
pub record Entered (cpu : CpuState) (return_addr : ℕ) (cpu' : CpuState) : Type 0 where
  pub valid : IsValid cpu'
  pub level : (cpu'.el ≡ 1) × (cpu'.spsel ≡ true)
  pub masked : cpu'.daif ≡ 0b1111
  pub link : cpu'.sysregs key_elr_el1 ≡ some return_addr
  pub saved : cpu'.sysregs key_spsr_el1 ≡ some (pstate cpu)
  pub banks : (i : ℕ) → i < 4 → read_sp_el cpu' i ≡ read_sp_el cpu i
  pub kept : (cpu'.x ≡ cpu.x) × (cpu'.pc ≡ cpu.pc) × (cpu'.flags ≡ cpu.flags)

set_el_spsel_frame :
    (cpu : CpuState) (el : ℕ) (spsel : Bool)
    → let cpu' = set_el_spsel cpu el spsel in
      (cpu'.x ≡ cpu.x)
      × (cpu'.pc ≡ cpu.pc)
      × (cpu'.flags ≡ cpu.flags)
      × (cpu'.daif ≡ cpu.daif)
      × (cpu'.sysregs ≡ cpu.sysregs)
unfolding set_el_spsel
set_el_spsel_frame cpu el spsel = ground arith

-- The active stack pointer and its bank do not depend on the rest of the state.
read_sp_el_ext :
    (a b : CpuState) (i : ℕ)
    → a.sp ≡ b.sp
    → a.sp_el ≡ b.sp_el
    → a.el ≡ b.el
    → a.spsel ≡ b.spsel
    → read_sp_el a i ≡ read_sp_el b i
unfolding read_sp_el sp_index
read_sp_el_ext a b i p q r s = ground arith

enter_el1-Entered :
    (cpu : CpuState) (return_addr vec_type : ℕ)
    → IsValid cpu
    → Entered cpu return_addr (enter_el1 cpu return_addr vec_type).0
unfolding enter_el1 sysreg_key
enter_el1-Entered cpu return_addr vec_type h =
    let saved =
      insert_sysreg (insert_sysreg cpu key_elr_el1 return_addr) key_spsr_el1 (pstate cpu) in
    let valid : IsValid saved = record { banks = h.banks; level = h.level; masks = h.masks } in
    let switched = set_el_spsel saved 1 true in
    let frame = set_el_spsel_frame saved 1 true in
    let valid' = set_el_spsel-IsValid saved 1 true (omega arith) valid in
    record {
      valid = record { banks = valid'.banks; level = valid'.level; masks = omega arith };
      level =
          let set = read_sp_el-set_el_spsel saved 1 true 0 valid (omega arith) (omega arith) in
          (set.2, set.3);
      masked = refl;
      link = rw frame.4;
      saved = rw frame.4;
      banks = λ i lt.
          read_sp_el_ext (record switched { daif = 0b1111 }) switched i refl refl refl refl
          ∙ (read_sp_el-set_el_spsel saved 1 true i valid (omega arith) lt).0
          ∙ read_sp_el_ext saved cpu i refl refl refl refl;
      kept = (frame.0, frame.1, frame.2);
    }

-- From a valid state, taking a synchronous exception enters EL1 with its own stack pointer and all
-- masks set, saves the return address and the packed PSTATE, and keeps the general-purpose
-- registers, the program counter, the flags and every banked stack pointer.
pub take_exception-Entered :
    (cpu : CpuState) (ec iss return_addr : ℕ)
    → IsValid cpu
    → Entered cpu return_addr (take_exception cpu ec iss return_addr).0
unfolding take_exception sysreg_key
take_exception-Entered cpu ec iss return_addr h =
    let e = enter_el1-Entered cpu return_addr 0 h in
    let entered = (enter_el1 cpu return_addr 0).0 in
    record {
      valid = record { banks = e.valid.banks; level = e.valid.level; masks = e.valid.masks };
      level = e.level;
      masked = e.masked;
      link = e.link;
      saved = e.saved;
      banks = λ i lt. read_sp_el_ext _ entered i refl refl refl refl ∙ e.banks i lt;
      kept = e.kept;
    }

-- What a return restores.
pub record Restored (cpu : CpuState) (return_addr : ℕ) (r : CpuState × Option ℕ) : Type 0 where
  pub target : r.1 ≡ some return_addr
  pub valid : IsValid r.0
  pub level : (r.0.el ≡ cpu.el) × (r.0.spsel ≡ cpu.spsel)
  pub masks : r.0.daif ≡ cpu.daif
  pub flags : r.0.flags ≡ cpu.flags
  pub registers : (r.0.x ≡ cpu.x) × (r.0.sp ≡ read_sp_el cpu (sp_index cpu))
  pub banks : (i : ℕ) → i < 4 → read_sp_el r.0 i ≡ read_sp_el cpu i

eret_reads :
    (cpu : CpuState) (elr spsr : ℕ)
    → cpu.sysregs key_elr_el1 ≡ some elr
    → cpu.sysregs key_spsr_el1 ≡ some spsr
    → eret cpu ≡ (set_pstate cpu spsr, some elr)
unfolding eret
eret_reads cpu elr spsr p q = cc (ap unwrap_or_zero p, ap unwrap_or_zero q)

eret-Entered :
    (cpu cpu' : CpuState) (return_addr : ℕ)
    → IsValid cpu
    → Entered cpu return_addr cpu'
    → Restored cpu return_addr (eret cpu')
unfolding sp_index
eret-Entered cpu cpu' return_addr h e =
    let staged = record cpu' { flags = cpu.flags; daif = cpu.daif } in
    let valid : IsValid staged = record {
      banks = e.valid.banks;
      level = e.valid.level;
      masks = h.masks;
    } in
    let frame = set_el_spsel_frame staged cpu.el cpu.spsel in
    let moved = read_sp_el-set_el_spsel staged cpu.el cpu.spsel in
    let at = moved 0 valid h.level (omega arith) in
    let same : (i : ℕ) → read_sp_el staged i ≡ read_sp_el cpu' i =
      λ i. read_sp_el_ext staged cpu' i refl refl refl refl in
    rw (eret_reads cpu' return_addr (pstate cpu) e.link e.saved, set_pstate-pstate cpu' cpu h)
      (record {
        target = refl;
        valid = set_el_spsel-IsValid staged cpu.el cpu.spsel h.level valid;
        level = (at.2, at.3);
        masks = frame.3;
        flags = frame.2;
        registers = (
          frame.0 ∙ e.kept.0,
          at.1 ∙ same (sp_index cpu) ∙ e.banks (sp_index cpu) (sp_index-lt cpu h),
        );
        banks = λ i lt. (moved i valid h.level lt).0 ∙ same i ∙ e.banks i lt;
      })

-- From a valid state, ERET directly after a synchronous exception resumes at the saved address
-- with the exception level, stack selection, masks, flags, general-purpose registers, active stack
-- pointer and every banked stack pointer that the exception found.
pub eret-take_exception :
    (cpu : CpuState) (ec iss return_addr : ℕ)
    → IsValid cpu
    → Restored cpu return_addr (eret (take_exception cpu ec iss return_addr).0)
eret-take_exception cpu ec iss return_addr h =
    eret-Entered cpu _ return_addr h (take_exception-Entered cpu ec iss return_addr h)

-- From a valid state, ERET directly after an interrupt is taken resumes at the interrupted
-- instruction, with the same state restored.
pub eret-take_irq : (cpu : CpuState) → IsValid cpu → Restored cpu cpu.pc (eret (take_irq cpu).0)
unfolding take_irq
eret-take_irq cpu h = eret-Entered cpu _ cpu.pc h (enter_el1-Entered cpu cpu.pc _ h)
