-- ===== src/Tests/Cpu.antt =====
-- Registers, banked stack pointers, PSTATE and the translation cache at concrete inputs.
use v.Base.{ℕ, ◌≡◌, refl, true, false, none, some, arith, ◌==◌, if◌then◌else◌}
use v.Base.{replicate, length-replicate, ◌∷◌, []}
use v.Cpu.Flags.{Flags}
use v.Cpu.Tlb
use v.Cpu.Tlb.Laws.{lookup-insert, new-IsValid}
use v.Cpu.State.{CpuState, new, read_gpr, write_gpr, pstate, set_pstate, set_el_spsel, read_sp_el}
use v.Cpu.State.Gpr.{HasRegs, read_gpr-write_gpr}
use v.Cpu.State.Banking.{IsValid, read_sp_el-set_el_spsel}
use v.Cpu.State.Pstate.{set_pstate-pstate}

abbrev carry_flags : Flags
carry_flags = record { n = true; z = false; c = true; vf = false }

-- EL0 with two stack pointers in use.
abbrev user : CpuState
user = record new {
  sp = 0x7fff_0000;
  sp_el = 0 ∷ 0xffff_8000 ∷ 0 ∷ 0 ∷ [];
  el = 0;
  spsel = false;
  daif = 0b0010;
  flags = carry_flags;
}

user-IsValid : IsValid user
user-IsValid = record { banks = refl; level = omega arith; masks = omega arith }

new-HasRegs : HasRegs new
new-HasRegs = record { count = length-replicate {A = ℕ} 31 0 }

set_pstate-pstate_example :
    set_pstate new (pstate user)
    ≡ set_el_spsel (record new { flags = carry_flags; daif = 0b0010 }) 0 false
set_pstate-pstate_example = set_pstate-pstate new user user-IsValid

read_sp_el-set_el_spsel_example :
    let cpu' = set_el_spsel user 1 true in
    (read_sp_el cpu' 0 ≡ read_sp_el user 0)
    × (cpu'.sp ≡ read_sp_el user 1)
    × (cpu'.el ≡ 1)
    × (cpu'.spsel ≡ true)
read_sp_el-set_el_spsel_example =
    read_sp_el-set_el_spsel user 1 true 0 user-IsValid (omega arith) (omega arith)

abbrev written : CpuState
written = record new { x = 0 ∷ 0 ∷ 0 ∷ 7 ∷ replicate 27 0 }

write_x3 : write_gpr new 3 false 7 ≡ some written
unfolding write_gpr
write_x3 = refl

read_gpr-write_gpr_example : read_gpr written 3 true ≡ (
    if 3 == 3
    then (if 3 == 31 then (if true then (if false then some 7 else some 0) else some 0) else some 7)
    else read_gpr new 3 true)
read_gpr-write_gpr_example = read_gpr-write_gpr 3 3 false true 7 new-HasRegs (omega arith) write_x3

lookup-insert_example : Tlb.lookup (Tlb.insert Tlb.new 0x1000 0x8000 5) 0x1000 ≡ (
    if 0x1000 == 0x1000
    then some (0x8000, 5)
    else if Tlb.index 0x1000 == Tlb.index 0x1000
    then none
    else Tlb.lookup Tlb.new 0x1000)
lookup-insert_example = lookup-insert 0x1000 0x8000 5 0x1000 new-IsValid
