-- ===== src/Interp/Mmu/Packing.antt =====
-- The permissions of a leaf in the `perms` byte of the translation cache.
use v.Base.{ℕ, ◌+◌, ◌*◌, ◌^◌, ◌<◌, ◌≡◌, arith, bit_or, u8}
use v.Base.{bit_of}
use v.Base.Bits.{bit_or_join_low, one_at_set}
use v.Interp.Mmu.{Leaf, pack, unpack}

pack_as_sum :
    (leaf : Leaf)
    → leaf.level < 16
    → pack leaf
      ≡ leaf.level * 16
        + (bit_of leaf.pxn * 8
            + bit_of leaf.uxn * 4
            + bit_of leaf.read_only * 2
            + bit_of leaf.el0_access)
unfolding pack
pack_as_sum leaf h = rw (low, whole) (bit_or_join_low 4 leaf.level _ (omega (arith, nibble-lt)))
  where
    nibble : ℕ
    nibble =
        bit_of leaf.pxn * 8
        + bit_of leaf.uxn * 4
        + bit_of leaf.read_only * 2
        + bit_of leaf.el0_access

    low :
        bit_or
          (bit_or
            (bit_or (bit_of leaf.el0_access) (bit_of leaf.read_only * 2 ^ 1))
            (bit_of leaf.uxn * 2 ^ 2))
          (bit_of leaf.pxn * 2 ^ 3)
        ≡ nibble
    low = ground arith

    whole : u8 (leaf.level * 2 ^ 4) ≡ leaf.level * 2 ^ 4
    whole = omega arith

    nibble-lt : nibble < 16
    nibble-lt = ground arith

-- What is packed is unpacked again: page, permissions and level, for a level below 16.
pub unpack-pack : (leaf : Leaf) → leaf.level < 16 → unpack leaf.pa_page (pack leaf) ≡ leaf
unfolding unpack
unpack-pack leaf h = ground (
  arith,
  pack_as_sum leaf h,
  one_at_set (pack leaf) 0,
  one_at_set (pack leaf) 1,
  one_at_set (pack leaf) 2,
  one_at_set (pack leaf) 3,
)
