-- ===== src/Tests/Mmu.antt =====
-- Address translation and guest memory at concrete inputs.
use v.Base.{ℕ, ◌%◌, ◌^◌, ◌≡◌, refl, false, some}
use v.Base.{[], ◌∷◌, Result, ok, ◌>>=◌, arith}
use v.Cpu.Tlb
use v.Cpu.Tlb.Laws.{new-IsValid, insert-IsValid, flush-IsValid}
use v.Decoder.Branch.{sysreg_key}
use v.Interp.System.{write_xlate_reg, assign_field}
use v.Interp.System.Laws.{write_xlate_reg-IsCoherent}
use v.Cpu.State.{CpuState, new, flush_tlb}
use v.Interp.Memory.{GuestMem, Memory, flat, read_at, write_at, read_le}
use v.Interp.Memory.Laws.{Inside, Written, write_at-Written, flat-ReadsPure}
use v.Interp.Mmu.{read, Leaf, translate, walk, walk_va, starting_level, pack, unpack}
use v.Interp.Mmu.{translate_miss, walk_from, round, after, descend, make_leaf, region, grant}
use v.Interp.Mmu.{check_perms}
use v.Interp.Mmu.Packing.{unpack-pack}
use v.Interp.Mmu.Walk.{walk_total}
use v.Interp.Mmu.Refine.{HasRegions, IsCoherent, translate_uncached, flush_tlb-IsCoherent}
use v.Interp.Mmu.Refine.{translate_refines, translate-IsCoherent}

-- 39-bit regions, the root at address 0.
abbrev walking : CpuState
walking = record new { sctlr_el1 = 1; tcr_el1 = 0x19_0019 }

-- A root whose first descriptor is a block of 1 GiB at 0x4000_0000.
abbrev image : Memory
image = record { base = 0; bytes = 0x01 ∷ 0x04 ∷ 0 ∷ 0x40 ∷ 0 ∷ 0 ∷ 0 ∷ 0 ∷ [] }

-- The same descriptor at every address.
abbrev uniform : GuestMem
uniform = record {
  Mem = ℕ;
  base = λ m. 0;
  read_u8 = λ m a. some (m % 2 ^ 8, m);
  read_u16 = λ m a. some (m % 2 ^ 16, m);
  read_u32 = λ m a. some (m % 2 ^ 32, m);
  read_u64 = λ m a. some (m, m);
  write_u8 = λ m a x. some m;
  write_u16 = λ m a x. some m;
  write_u32 = λ m a x. some m;
  write_u64 = λ m a x. some m;
}

walking-HasRegions : HasRegions walking
walking-HasRegions = record { low = omega arith; high = omega arith }

walking-IsCoherent : IsCoherent flat (flush_tlb walking) image
walking-IsCoherent = flush_tlb-IsCoherent flat walking image new-IsValid walking-HasRegions

abbrev block_leaf : Leaf
block_leaf = record {
  pa_page = 0x4000_1000;
  el0_access = false;
  read_only = false;
  uxn = false;
  pxn = false;
  level = 1;
}

abbrev filled : CpuState
filled = record (flush_tlb walking) {
  tlb = Tlb.insert (flush_tlb walking).tlb 0x1000 0x4000_1000 0x10;
}

translates :
    translate flat (flush_tlb walking) image 0x1234 read 1 ≡ some (ok 0x4000_1234, filled, image)
unfolding translate translate_miss walk_va walk walk_from round after descend make_leaf region grant
    check_perms starting_level pack flush_tlb Tlb.lookup Tlb.flush Tlb.new Tlb.index read_at read_le
translates = refl

translate_refines_example :
    (translate flat (flush_tlb walking) image 0x1234 read 1 >>= λ r. some r.0)
    ≡ translate_uncached flat (flush_tlb walking) image 0x1234 read 1
translate_refines_example =
    translate_refines flat (flush_tlb walking) image 0x1234 read 1 flat-ReadsPure walking-IsCoherent
      (omega arith)

translate-IsCoherent_example : (image ≡ image) × IsCoherent flat filled image
translate-IsCoherent_example =
    translate-IsCoherent flat (flush_tlb walking) image 0x1234 read 1 flat-ReadsPure
      walking-IsCoherent (omega arith) translates

flush_tlb-IsCoherent_example : IsCoherent flat (flush_tlb walking) image
flush_tlb-IsCoherent_example =
    flush_tlb-IsCoherent flat walking image new-IsValid walking-HasRegions

walk_total_example : (r : Result Leaf ℕ × ℕ) × (walk uniform 0x4000_0401 0 0x1234 25 ≡ some r)
walk_total_example =
    walk_total uniform 0x4000_0401 0 0x1234 25 (λ m a. ((m, m), refl)) (omega arith)

unpack-pack_example : unpack 0x4000_1000 (pack block_leaf) ≡ block_leaf
unpack-pack_example = unpack-pack block_leaf (omega arith)

image-Inside : Inside 4 image 2
image-Inside = record { above = omega arith; below = omega arith }

write_at-Written_example :
    (m' : Memory) × (write_at 4 image 2 0x1122_3344 ≡ some m') × Written 4 2 0x1122_3344 image m'
write_at-Written_example = write_at-Written 4 image 2 0x1122_3344 image-Inside

-- MSR TTBR0_EL1 with an entry of the old tables cached.
switched :
    write_xlate_reg filled 0x3_0200 0x2000 ≡ some (flush_tlb (record filled { ttbr0_el1 = 0x2000 }))
unfolding write_xlate_reg assign_field sysreg_key
switched = refl

write_xlate_reg-IsCoherent_example :
    IsCoherent flat (flush_tlb (record filled { ttbr0_el1 = 0x2000 })) image
unfolding flush_tlb
write_xlate_reg-IsCoherent_example =
    write_xlate_reg-IsCoherent flat filled image 0x3_0200 0x2000
      (insert-IsValid 0x1000 0x4000_1000 0x10 (flush-IsValid new-IsValid)) switched
      (record { low = omega arith; high = omega arith })
