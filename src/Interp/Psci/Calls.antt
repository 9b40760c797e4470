-- ===== src/Interp/Psci/Calls.antt =====
-- The firmware calls by the numbers of the PSCI convention.
use v.Base.{ℕ, ◌+◌, ◌-◌, ◌*◌, ◌/◌, ◌%◌, ◌^◌, ◌<◌, ◌≡◌, inl, inr, refl, true, ◌||◌, ◌==◌, Bool}
use v.Base.{List, [], ◌∷◌}
use v.Base.{bit_and, u32, not32, some, if◌then◌else◌, get_elem?, get_elem?-total}
use v.Base.{set?-total}
use v.Base.{arith, ◌∙◌, ap, sym, Bool-cases}
use v.Base.Bits.{bit_and_split, bit_and_low}
use v.Cpu.State.{CpuState}
use v.Cpu.State.Gpr.{HasRegs}
use v.Interp.Psci.{call, answer, function_of, system_off, system_reset}

-- The number of each call in both calling conventions, and what it answers.
abbrev pub answers : List (ℕ × ℕ)
answers =
    (0x8400_0000, 0x1_0000)
    ∷ (0xc400_0000, 0x1_0000)
    ∷ (0x8400_0004, 0)
    ∷ (0xc400_0004, 0)
    ∷ (0x8400_0006, 2)
    ∷ (0xc400_0006, 2)
    ∷ (0x8400_0008, 0)
    ∷ (0xc400_0008, 0)
    ∷ (0x8400_0009, 0)
    ∷ (0xc400_0009, 0)
    ∷ []

-- A call that is not listed is not supported: -1.
abbrev pub listed : List (ℕ × ℕ) → ℕ → ℕ
listed [] id = 0xffff_ffff_ffff_ffff
listed ((number, result) ∷ rest) id = if id == number then result else listed rest id

abbrev pub switches_off : ℕ → Bool
switches_off id = id == 0x8400_0008 || id == 0xc400_0008 || id == 0x8400_0009 || id == 0xc400_0009

without_bit_30 : (x0 : ℕ) → function_of x0 ≡ u32 x0 - x0 / 2 ^ 30 % 2 * 2 ^ 30
without_bit_30 x0 =
    ap (λ w. bit_and w (not32 (2 ^ 30))) (sym whole)
    ∙ masked
    ∙ omega (arith, bit_and_low 1 (u32 x0 / 2 ^ 31), bit_and_low 30 (u32 x0 % 2 ^ 31))
  where
    masked :
        bit_and (u32 x0 / 2 ^ 31 * 2 ^ 31 + u32 x0 % 2 ^ 31) (1 * 2 ^ 31 + (2 ^ 30 - 1))
        ≡ bit_and (u32 x0 / 2 ^ 31) 1 * 2 ^ 31 + bit_and (u32 x0 % 2 ^ 31) (2 ^ 30 - 1)
    masked =
        bit_and_split 31 (u32 x0 / 2 ^ 31) (u32 x0 % 2 ^ 31) 1 (2 ^ 30 - 1) (omega arith)
          (omega arith)

    whole : u32 x0 / 2 ^ 31 * 2 ^ 31 + u32 x0 % 2 ^ 31 ≡ u32 x0
    whole = omega arith

answer-listed : (x0 : ℕ) → answer (function_of x0) ≡ listed answers (u32 x0)
unfolding answer
answer-listed x0 = ground (arith, without_bit_30 x0)

halts_listed :
    (x0 : ℕ)
    → (function_of x0 == system_off || function_of x0 == system_reset) ≡ switches_off (u32 x0)
halts_listed x0 = ground (arith, without_bit_30 x0)

-- What a call does to the registers and to the power state.
pub record Called (cpu cpu' : CpuState) (x0 : ℕ) : Type 0 where
  pub count : HasRegs cpu'
  pub result : get_elem? cpu'.x 0 ≡ some (listed answers (x0 % 2 ^ 32))
  pub others : (j : ℕ) → 0 < j → get_elem? cpu'.x j ≡ get_elem? cpu.x j
  pub power : cpu'.powered_off ≡ (cpu.powered_off || switches_off (x0 % 2 ^ 32))

-- With all registers present, a firmware call does not panic. Its number is the low half of X0; it
-- answers in X0 version 1.0 to 0x84000000, 0 to 0x84000004, 0x84000008 and 0x84000009, 2 to
-- 0x84000006, the same to these numbers with bit 30 set, and -1 to every other number. It changes no
-- other general-purpose register, and switches the machine off exactly for the calls that end in 8
-- and 9.
pub call-Called :
    (cpu : CpuState)
    → HasRegs cpu
    → (x0 : ℕ) × (cpu' : CpuState) × (get_elem? cpu.x 0 ≡ some x0)
      × (call cpu ≡ some cpu')
      × Called cpu cpu' x0
unfolding call
call-Called cpu h =
    let (x0, reads) = get_elem?-total cpu.x 0 (omega (arith, h)) in
    let fid = function_of x0 in
    let halts = fid == system_off || fid == system_reset in
    let (ys, sets, size, at) = set?-total cpu.x 0 (answer fid) (omega (arith, h)) in
    elim (Bool-cases halts) [
      | inl off ↦ (
        x0,
        record cpu { powered_off = true; x = ys },
        reads,
        rw (reads, off, sets) refl,
        record {
          count = record { count = size ∙ h.count };
          result = at 0 ∙ ap some (answer-listed x0);
          others = λ j lt. at j ∙ ground arith;
          power = ground (arith, halts_listed x0);
        },
      )
      | inr on ↦ (
        x0,
        record cpu { x = ys },
        reads,
        rw (reads, on, sets) refl,
        record {
          count = record { count = size ∙ h.count };
          result = at 0 ∙ ap some (answer-listed x0);
          others = λ j lt. at j ∙ ground arith;
          power = ground (arith, halts_listed x0);
        },
      )
    ]
