-- ===== src/Cpu/State.antt =====
-- crates/cpu/src/state.rs: the registers of one core and the operations on them.
pub mod Gpr
pub mod Banking
pub mod Pstate
use v.Base.{ℕ, zero, suc, ◌-◌, ◌*◌, ◌/◌, ◌%◌, ◌^◌, ◌<<<◌, ◌>>>◌, bit_and, bit_or, u8}
use v.Base.{Bool, true, false, Option, none, some, List, ◌==◌, if◌then◌else◌, bit_of}
use v.Base.{◌>>=◌, get_elem?, set?, get_or, set, replicate}
use v.Cpu.Flags
use v.Cpu.Flags.{Flags, to_nzcv, from_nzcv}
use v.Cpu.Tlb
use v.Cpu.Tlb.{Tlb}

abbrev pub sp_or_zr : ℕ
sp_or_zr = 31

pub record Abort : Type 0 where
  pub far : ℕ
  pub write : Bool
  pub fsc : ℕ

-- The `BTreeMap` of system registers.
abbrev pub SysRegs : Type 0
SysRegs = ℕ → Option ℕ

-- `vregs` is the source's `v`.
pub record CpuState : Type 0 where
  pub x : List ℕ
  pub sp : ℕ
  pub pc : ℕ
  pub nzcv : ℕ
  pub vregs : List ℕ
  pub jit_count : ℕ
  pub jit_exit : ℕ
  pub flags : Flags
  pub sctlr_el1 : ℕ
  pub tcr_el1 : ℕ
  pub ttbr0_el1 : ℕ
  pub ttbr1_el1 : ℕ
  pub fpcr : ℕ
  pub fpsr : ℕ
  pub excl_valid : ℕ
  pub excl_addr : ℕ
  pub excl_val : ℕ
  pub sysregs : SysRegs
  pub el : ℕ
  pub spsel : Bool
  pub daif : ℕ
  pub sp_el : List ℕ
  pub powered_off : Bool
  pub pending_abort : Option Abort
  pub wfi : Bool
  pub tlb : Tlb
  pub ic_inval : Bool
  pub tlb_flushed : Bool

abbrev pub new : CpuState
new = record {
  x = replicate 31 0;
  sp = 0;
  pc = 0;
  nzcv = 0;
  vregs = replicate 32 0;
  jit_count = 0;
  jit_exit = 0;
  flags = record { n = false; z = false; c = false; vf = false };
  sctlr_el1 = 0;
  tcr_el1 = 0;
  ttbr0_el1 = 0;
  ttbr1_el1 = 0;
  fpcr = 0;
  fpsr = 0;
  excl_valid = 0;
  excl_addr = 0;
  excl_val = 0;
  sysregs = λ k. none;
  el = 1;
  spsel = true;
  daif = 0;
  sp_el = replicate 4 0;
  powered_off = false;
  pending_abort = none;
  wfi = false;
  tlb = Tlb.new;
  ic_inval = false;
  tlb_flushed = false;
}

unfoldable pub flush_tlb : CpuState → CpuState
flush_tlb cpu = record cpu { tlb = Tlb.flush cpu.tlb; tlb_flushed = true }

unfoldable pub arm_excl : CpuState → ℕ → ℕ → CpuState
arm_excl cpu addr val = record cpu { excl_valid = 1; excl_addr = addr; excl_val = val }

unfoldable pub clear_excl : CpuState → CpuState
clear_excl cpu = record cpu { excl_valid = 0 }

unfoldable pub excl : CpuState → Option (ℕ × ℕ)
excl cpu = if cpu.excl_valid == 0 then none else some (cpu.excl_addr, cpu.excl_val)

-- `none` is the panic of an index outside `x`.
unfoldable pub read_gpr : CpuState → ℕ → Bool → Option ℕ
read_gpr cpu idx sp =
    if idx == sp_or_zr then (if sp then some cpu.sp else some 0) else get_elem? cpu.x idx

unfoldable pub write_gpr : CpuState → ℕ → Bool → ℕ → Option CpuState
write_gpr cpu idx sp val =
    if idx == sp_or_zr
    then (if sp then some (record cpu { sp = val }) else some cpu)
    else (do x' ← set? cpu.x idx val; some (record cpu { x = x' }))

unfoldable pub read_gpr_w : CpuState → ℕ → Bool → Option ℕ
read_gpr_w cpu idx sp = do r ← read_gpr cpu idx sp; some (bit_and r 0xffff_ffff)

unfoldable pub write_gpr_w : CpuState → ℕ → Bool → ℕ → Option CpuState
write_gpr_w cpu idx sp val = write_gpr cpu idx sp (bit_and val 0xffff_ffff)

unfoldable pub sp_index : CpuState → ℕ
sp_index cpu = if cpu.spsel then cpu.el else 0

-- `sp_el` has four entries and `Banking.IsValid` keeps `el` below 4, so no access to it is out of
-- range: the default of `get_or` is never read, and `set` always writes.
unfoldable pub set_el_spsel : CpuState → ℕ → Bool → CpuState
set_el_spsel cpu el' spsel' =
    let old = sp_index cpu in
    let moved = record cpu { el = el'; spsel = spsel' } in
    let new_index = sp_index moved in
    if old == new_index
    then moved
    else (let banked = set cpu.sp_el old cpu.sp in
        record moved { sp_el = banked; sp = get_or banked new_index 0 })

unfoldable pub read_sp_el : CpuState → ℕ → ℕ
read_sp_el cpu idx = if idx == sp_index cpu then cpu.sp else get_or cpu.sp_el idx 0

unfoldable pub write_sp_el : CpuState → ℕ → ℕ → CpuState
write_sp_el cpu idx val =
    if idx == sp_index cpu
    then record cpu { sp = val }
    else record cpu { sp_el = set cpu.sp_el idx val }

unfoldable pub pstate : CpuState → ℕ
pstate cpu =
    bit_or (bit_or (bit_or (to_nzcv cpu.flags) (cpu.daif <<< 6)) (cpu.el <<< 2)) (bit_of cpu.spsel)

unfoldable pub set_pstate : CpuState → ℕ → CpuState
set_pstate cpu w =
    let flagged = record cpu { flags = from_nzcv w; daif = u8 (bit_and (w >>> 6) 0xf) } in
    set_el_spsel flagged (u8 (bit_and (w >>> 2) 0x3)) (bit_and w 1 == 1)
