-- ===== src/Interp/Mmu.antt =====
-- crates/interp/src/mmu.rs: stage-1 address translation.
pub mod Packing
pub mod Pages
pub mod Walk
pub mod Refine
use v.Base.{ℕ, zero, suc, ◌+◌, ◌-◌, ◌*◌, ◌/◌, ◌%◌, ◌^◌, ◌<<<◌, ◌>>>◌, one_at, not64, bit_and}
use v.Base.{bit_or, u8}
use v.Base.{Bool, true, false, not, ◌&&◌, ◌||◌, Option, none, some, ◌==◌, ◌!=◌, leb}
use v.Base.{if◌then◌else◌}
use v.Base.{◌>>=◌, ◌>>◌, check, bit_of, Result, ok, err}
use v.Cpu.Tlb
use v.Cpu.State.{CpuState}
use v.Interp.Memory.{GuestMem}

abbrev pub oa_mask : ℕ
oa_mask = 0x0000_ffff_ffff_f000

abbrev pub page_mask : ℕ
page_mask = 0xfff

abbrev pub fsc_translation : ℕ
fsc_translation = 0b0001_00

abbrev pub fsc_access_flag : ℕ
fsc_access_flag = 0b0010_00

abbrev pub fsc_permission : ℕ
fsc_permission = 0b0011_00

pub data Access : Type 0 where
  read write exec : Access

pub mmu_enabled : CpuState → Bool
mmu_enabled cpu = bit_and cpu.sctlr_el1 1 == 1

pub record TablePerms : Type 0 where
  pub no_el0 : Bool
  pub no_write : Bool
  pub uxn : Bool
  pub pxn : Bool

abbrev pub no_table_perms : TablePerms
no_table_perms = record { no_el0 = false; no_write = false; uxn = false; pxn = false }

pub record Leaf : Type 0 where
  pub pa_page : ℕ
  pub el0_access : Bool
  pub read_only : Bool
  pub uxn : Bool
  pub pxn : Bool
  pub level : ℕ

unfoldable pub pack : Leaf → ℕ
pack leaf =
    bit_or
      (bit_or
        (bit_or (bit_or (bit_of leaf.el0_access) (bit_of leaf.read_only <<< 1))
          (bit_of leaf.uxn <<< 2))
        (bit_of leaf.pxn <<< 3))
      (u8 (leaf.level <<< 4))

unfoldable pub unpack : ℕ → ℕ → Leaf
unpack pa_page perms = record {
  pa_page = pa_page;
  el0_access = bit_and perms 1 != 0;
  read_only = bit_and perms 0b10 != 0;
  uxn = bit_and perms 0b100 != 0;
  pxn = bit_and perms 0b1000 != 0;
  level = perms >>> 4;
}

-- `true` is the `Ok(())` of the source.
unfoldable pub check_perms : ℕ → Leaf → Access → Bool
check_perms el leaf read = not (el == 0 && not leaf.el0_access)
check_perms el leaf write = not (el == 0 && not leaf.el0_access) && not leaf.read_only
check_perms el leaf exec = if el == 0 then not leaf.uxn else not leaf.pxn

-- u32 arithmetic with overflow checks: `none` is the panic of `va_bits - 12` or of `4 - levels`.
unfoldable pub starting_level : ℕ → Option ℕ
starting_level tsz =
    let va_bits = 64 - tsz in
    let levels = (va_bits - 12 + 8) / 9 in
    do check (leb 12 va_bits); check (leb levels 4); some (4 - levels)

-- The leaf that the descriptor `desc` makes at `level`, `shift` being the lowest bit that the
-- level resolves.
unfoldable pub make_leaf : ℕ → ℕ → ℕ → ℕ → TablePerms → Leaf
make_leaf desc va shift level tp =
    let block_mask = one_at shift - 1 in
    let pa = bit_or (bit_and (bit_and desc oa_mask) (not64 block_mask)) (bit_and va block_mask) in
    record {
      pa_page = bit_and pa (not64 page_mask);
      el0_access = bit_and desc (one_at 6) != 0 && not tp.no_el0;
      read_only = bit_and desc (one_at 7) != 0 || tp.no_write;
      uxn = bit_and desc (one_at 54) != 0 || tp.uxn;
      pxn = bit_and desc (one_at 53) != 0 || tp.pxn;
      level = u8 level;
    }

unfoldable pub tighten : ℕ → TablePerms → TablePerms
tighten desc tp =
    let ap_table = bit_and (desc >>> 61) 0b11 in
    record {
      no_el0 = tp.no_el0 || bit_and ap_table 0b01 != 0;
      no_write = tp.no_write || bit_and ap_table 0b10 != 0;
      uxn = tp.uxn || bit_and desc (one_at 60) != 0;
      pxn = tp.pxn || bit_and desc (one_at 59) != 0;
    }

-- What a descriptor means at a level: a fault, a leaf, or the base of the next table with the
-- permissions gathered so far.
pub data Descent : Type 0 where
  fault : ℕ → Descent
  leaf : Leaf → Descent
  table : ℕ → TablePerms → Descent

unfoldable pub descend : ℕ → ℕ → ℕ → ℕ → TablePerms → Descent
descend desc va shift level tp =
    if bit_and desc 1 == 0
    then fault (bit_or fsc_translation (u8 level))
    else if level == 3 || bit_and desc 0b10 == 0
    then (if bit_and desc (one_at 10) == 0
        then fault (bit_or fsc_access_flag (u8 level))
        else leaf (make_leaf desc va shift level tp))
    else table (bit_and desc oa_mask) (tighten desc tp)

-- The table root and the region size for `va`.
unfoldable pub region : CpuState → ℕ → ℕ × ℕ
region cpu va =
    let tcr = cpu.tcr_el1 in
    if bit_and (va >>> 55) 1 == 1
    then (cpu.ttbr1_el1, bit_and (tcr >>> 16) 0x3f)
    else (cpu.ttbr0_el1, bit_and tcr 0x3f)

-- The permission check at the end of both paths.
unfoldable pub grant : ℕ → Leaf → Access → ℕ → Result ℕ ℕ
grant el found access va =
    if check_perms el found access
    then ok (bit_or found.pa_page (bit_and va page_mask))
    else err (bit_or fsc_permission found.level)

-- What the walk does with a descriptor; `next` is the rest of the loop.
unfoldable pub after {ℓ} :
    {Mem : Type ℓ}
    → Descent
    → Mem
    → (ℕ → TablePerms → Option (Result Leaf ℕ × Mem))
    → Option (Result Leaf ℕ × Mem)
after (fault fsc) mem next = some (err fsc, mem)
after (leaf found) mem next = some (ok found, mem)
after (table base tp) mem next = next base tp

module _ (M : GuestMem) where
  open M use {Mem, read_u64}

  -- One round of the loop of `walk`. `39 - level * 9` panics from level 5 on.
  unfoldable pub round :
      Mem
      → ℕ
      → ℕ
      → ℕ
      → TablePerms
      → (Mem → ℕ → TablePerms → Option (Result Leaf ℕ × Mem))
      → Option (Result Leaf ℕ × Mem)
  round mem table_base va level tp next = do
    check (leb (level * 9) 39)
    (desc, mem') ← read_u64 mem (table_base + bit_and (va >>> (39 - level * 9)) 0x1ff * 8)
    after (descend desc va (39 - level * 9) level tp) mem' (next mem')

  -- The loop with `fuel` rounds left; six are never used up.
  unfoldable pub walk_from : ℕ → Mem → ℕ → ℕ → ℕ → TablePerms → Option (Result Leaf ℕ × Mem)
  walk_from zero mem table_base va level tp = none
  walk_from (suc fuel) mem table_base va level tp =
      round mem table_base va level tp
        (λ mem' base tp'. walk_from fuel mem' base va (level + 1) tp')

  unfoldable pub walk : Mem → ℕ → ℕ → ℕ → Option (Result Leaf ℕ × Mem)
  walk mem table_base va tsz = do
    level ← starting_level tsz
    walk_from 6 mem table_base va level no_table_perms

  unfoldable pub walk_va : CpuState → Mem → ℕ → Option (Result Leaf ℕ × Mem)
  walk_va cpu mem va = let (ttbr, tsz) = region cpu va in walk mem (bit_and ttbr oa_mask) va tsz

  unfoldable pub translate_miss :
      CpuState → Mem → ℕ → Access → ℕ → Option (Result ℕ ℕ × CpuState × Mem)
  translate_miss cpu mem va access el = do
    (found, mem') ← walk_va cpu mem va
    elim found [
      | err fsc ↦ some (err fsc, cpu, mem')
      | ok lf ↦ some (
        grant el lf access va,
        record cpu { tlb = Tlb.insert cpu.tlb (bit_and va (not64 page_mask)) lf.pa_page (pack lf) },
        mem',
      )
    ]

  unfoldable pub translate : CpuState → Mem → ℕ → Access → ℕ → Option (Result ℕ ℕ × CpuState × Mem)
  unfolding mmu_enabled
  translate cpu mem va access el =
      let va_page = bit_and va (not64 page_mask) in
      if not (mmu_enabled cpu) then some (ok va, cpu, mem) else elim (Tlb.lookup cpu.tlb va_page) [
        | some (pa_page, perms) ↦ some (grant el (unpack pa_page perms) access va, cpu, mem)
        | none ↦ translate_miss cpu mem va access el
      ]
