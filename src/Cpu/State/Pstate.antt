-- ===== src/Cpu/State/Pstate.antt =====
-- PSTATE packed into the SPSR layout and restored from it.
use v.Base.{ℕ, ◌+◌, ◌*◌, ◌<◌, ◌≡◌, refl, arith, bit_and, u8, ◌^◌, ◌/◌}
use v.Base.{bit_of, bit_of-lt, ◌==◌}
use v.Base.Bits.{bit_and_low, bit_or_add}
use v.Cpu.Flags.{Flags, to_nzcv, from_nzcv, nibble, to_nzcv_as_nibble, from_nzcv_low}
use v.Cpu.State.{CpuState, pstate, set_pstate, set_el_spsel}
use v.Cpu.State.Banking.{IsValid, set_el_spsel-IsValid}

pub nibble-lt : (f : Flags) → nibble f < 16
nibble-lt f = ground arith

pstate_as_sum :
    (cpu : CpuState)
    → IsValid cpu
    → pstate cpu ≡ to_nzcv cpu.flags + cpu.daif * 64 + cpu.el * 4 + bit_of cpu.spsel
unfolding pstate
pstate_as_sum cpu h =
    rw
      (
        to_nzcv_as_nibble cpu.flags,
        bit_or_add 28 (nibble cpu.flags * 2 ^ 28) (cpu.daif * 64) (omega arith) (omega arith),
        bit_or_add 6 (nibble cpu.flags * 2 ^ 28 + cpu.daif * 64) (cpu.el * 4) (omega arith)
            (omega arith),
        bit_or_add 2 (nibble cpu.flags * 2 ^ 28 + cpu.daif * 64 + cpu.el * 4) (bit_of cpu.spsel)
            (omega arith) (omega (arith, bit_of-lt cpu.spsel)),
      )
      refl

set_pstate-IsValid : (cpu : CpuState) (w : ℕ) → IsValid cpu → IsValid (set_pstate cpu w)
unfolding set_pstate
set_pstate-IsValid cpu w h =
    set_el_spsel-IsValid (record cpu { flags = from_nzcv w; daif = u8 (bit_and (w / 2 ^ 6) 0xf) })
      (u8 (bit_and (w / 2 ^ 2) 0x3)) _ (omega (arith, bit_and_low 2 (w / 2 ^ 2)))
      (record {
        banks = h.banks;
        level = h.level;
        masks = omega (arith, bit_and_low 4 (w / 2 ^ 6));
      })

-- Restoring the packed PSTATE of a valid state sets the flags, the masks, the level and the stack
-- selection that were packed, as one change of level.
pub set_pstate-pstate :
    (cpu saved : CpuState)
    → IsValid saved
    → set_pstate cpu (pstate saved)
      ≡ set_el_spsel (record cpu { flags = saved.flags; daif = saved.daif }) saved.el saved.spsel
unfolding set_pstate
set_pstate-pstate cpu saved h = rw (restored_flags, restored_masks, restored_level, restored_sp)
  where
    below : saved.daif * 64 + saved.el * 4 + bit_of saved.spsel < 2 ^ 28
    below = omega (arith, h, bit_of-lt saved.spsel)

    total :
        pstate saved ≡ to_nzcv saved.flags + (saved.daif * 64 + saved.el * 4 + bit_of saved.spsel)
    total = omega (arith, pstate_as_sum saved h)

    restored_flags : from_nzcv (pstate saved) ≡ saved.flags
    restored_flags = rw total (from_nzcv_low saved.flags _ below)

    restored_masks : u8 (bit_and (pstate saved / 2 ^ 6) 0xf) ≡ saved.daif
    restored_masks = omega (
      arith,
      h,
      total,
      to_nzcv_as_nibble saved.flags,
      bit_of-lt saved.spsel,
      bit_and_low 4 (pstate saved / 2 ^ 6),
    )

    restored_level : u8 (bit_and (pstate saved / 2 ^ 2) 0x3) ≡ saved.el
    restored_level = omega (
      arith,
      h,
      total,
      to_nzcv_as_nibble saved.flags,
      bit_of-lt saved.spsel,
      bit_and_low 2 (pstate saved / 2 ^ 2),
    )

    restored_sp : (bit_and (pstate saved) 1 == 1) ≡ saved.spsel
    restored_sp =
        ground (arith, h, total, to_nzcv_as_nibble saved.flags, bit_and_low 1 (pstate saved))
