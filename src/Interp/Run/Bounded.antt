-- ===== src/Interp/Run/Bounded.antt =====
-- A bounded run is that many single steps.
use v.Base.{ℕ, zero, suc, ◌+◌, ◌<◌, ◌≡◌, refl, true, false, ◌&&◌, Option, none, some}
use v.Base.{◌==◌, ◌!=◌, leb, if◌then◌else◌, ◌>>=◌, arith}
use v.Base.Chains.{bind_along, result_along, option_along}
use v.Cpu.State.{CpuState}
use v.Decoder.Insn.{Insn}
use v.Decoder.Decode.{decode}
use v.Interp.Integer.{Outcome}
use v.Interp.Memory.{GuestMem}
use v.Interp.Mmu.{Access, translate}
use v.Interp.Run.{StopReason, Step, refused, round, step, run_from, run, fetched, executed_insn}

module _ (M : GuestMem) (others : CpuState → Insn → ℕ → Outcome) where
  open M use {Mem, read_u32}

  -- What a step that ended makes of the rest of the run.
  abbrev pub follow :
      Step
      → CpuState
      → Mem
      → (CpuState → Mem → Option (StopReason × CpuState × Mem))
      → Option (StopReason × CpuState × Mem)
  follow (Step.next pc) cpu mem rest = rest cpu mem
  follow (Step.unsupported pc word) cpu mem rest = some (StopReason.unsupported pc word, cpu, mem)

  -- At most `k` steps, stopping at `until` or at a word that is not supported.
  unfoldable pub steps : ℕ → CpuState → Mem → ℕ → Option (StopReason × CpuState × Mem)
  steps zero cpu mem until =
      if cpu.pc == until
      then some (StopReason.until_reached, cpu, mem)
      else some (StopReason.count_reached, cpu, mem)
  steps (suc k) cpu mem until =
      let more : Option (StopReason × CpuState × Mem) = do
        (s, cpu', mem') ← step M others cpu mem
        follow s cpu' mem' (λ c m. steps k c m until)
      in if cpu.pc == until then some (StopReason.until_reached, cpu, mem) else more

  module _ (rest : CpuState → Mem → Option (StopReason × CpuState × Mem)) where
    followed : Option (Step × CpuState × Mem) → Option (StopReason × CpuState × Mem)
    followed o = o >>= λ r. follow r.0 r.1 r.2 rest

    round-step :
        (cpu : CpuState) (mem : Mem)
        → round M others cpu mem rest ≡ followed (step M others cpu mem)
    unfolding round step fetched followed
    round-step cpu mem = bind_along (translate M cpu mem cpu.pc Access.exec cpu.el) _ _ _ λ t _.
        result_along t.0 _ _ _ _ _
          (λ pa. bind_along (read_u32 t.2 pa) _ _ _ λ w _.
            option_along (refused (decode w.0)) _ _ _ _ _ (λ x. refl)
              (bind_along (executed_insn M others t.1 w.1 (decode w.0) cpu.pc) _ _ _ λ c _. refl))
          λ fsc. refl

    followed_lem :
        (o : Option (Step × CpuState × Mem)) → followed o ≡ (o >>= λ r. follow r.0 r.1 r.2 rest)
    unfolding followed
    followed_lem o = refl

  follow_cong :
      (s : Step) (cpu : CpuState) (mem : Mem)
      {f g : CpuState → Mem → Option (StopReason × CpuState × Mem)}
      → ((c : CpuState) (m : Mem) → f c m ≡ g c m)
      → follow s cpu mem f ≡ follow s cpu mem g
  follow_cong (Step.next pc) cpu mem e = e cpu mem
  follow_cong (Step.unsupported pc word) cpu mem e = refl

  followed_cong :
      (o : Option (Step × CpuState × Mem))
      {f g : CpuState → Mem → Option (StopReason × CpuState × Mem)}
      → ((c : CpuState) (m : Mem) → f c m ≡ g c m)
      → followed f o ≡ followed g o
  unfolding followed
  followed_cong none e = refl
  followed_cong (some r) e = follow_cong r.0 r.1 r.2 e

  run_from-steps :
      (k fuel count executed until : ℕ) (cpu : CpuState) (mem : Mem)
      → k < fuel
      → executed + k ≡ count
      → 0 < count
      → run_from M others fuel cpu mem until count executed ≡ steps k cpu mem until
  unfolding run_from steps
  run_from-steps k zero count executed until cpu mem lt e pos = elim (none_left) [ ]
    where
      none_left : ⊥
      none_left = omega arith
  run_from-steps zero (suc fuel) count executed until cpu mem lt e pos = rw bound refl
    where
      bound : (count != 0 && leb count executed) ≡ true
      bound = ground arith
  run_from-steps (suc k) (suc fuel) count executed until cpu mem lt e pos =
      rw
        (
          bound,
          round-step (λ c m. run_from M others fuel c m until count (executed + 1)) cpu mem,
          followed_cong (step M others cpu mem) λ c m.
              run_from-steps k fuel count (executed + 1) until c m (omega arith) (omega arith) pos,
          followed_lem (λ c m. steps k c m until) (step M others cpu mem),
        )
        refl
    where
      bound : (count != 0 && leb count executed) ≡ false
      bound = ground arith

  -- With a count above 0, a run with more fuel than the count is exactly that many single steps at
  -- the most: it stops at `until`, at a word that is not supported, or when the steps are done, and
  -- the fuel does not run out.
  pub run-steps :
      (fuel count until : ℕ) (cpu : CpuState) (mem : Mem)
      → count < fuel
      → 0 < count
      → run M others fuel cpu mem until count ≡ steps count cpu mem until
  unfolding run
  run-steps fuel count until cpu mem lt pos =
      run_from-steps count fuel count 0 until cpu mem lt (omega arith) pos
