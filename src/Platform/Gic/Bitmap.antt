-- ===== src/Platform/Gic/Bitmap.antt =====
-- The 1-bit-per-interrupt registers: what a write sets, and what a read returns.
use v.Base.{ℕ, zero, suc, ◌+◌, ◌*◌, ◌-◌, ◌≡◌, ap, Bool, ◌&&◌}
use v.Base.{arith, ltb, leb, ◌==◌, ◌!=◌, if◌then◌else◌, update, bit_and, one_at}
use v.Base.Bits.{bit, one_at_set}
use v.Platform.Gic.{num_irqs, write_bits, write_bitmap}

-- Whether a write of `val` at bit `i` on reaches interrupt `j`.
abbrev pub reaches : ℕ → ℕ → ℕ → ℕ → ℕ → Bool
reaches base val left i j =
    leb (base + i) j && ltb j (base + i + left) && ltb j num_irqs && (bit val (j - base) == 1)

write_bits_lem :
    (base val : ℕ) (to : Bool) (left i : ℕ) (arr : ℕ → Bool) (j : ℕ)
    → write_bits base val to left i arr j ≡ (if reaches base val left i j then to else arr j)
unfolding write_bits
write_bits_lem base val to zero i arr j = ground arith
write_bits_lem base val to (suc left) i arr j = ground (
  arith,
  one_at_set val i,
  here,
  write_bits_lem base val to left (i + 1)
      (if bit_and val (one_at i) != 0 && ltb (base + i) num_irqs
        then update arr (base + i) to
        else arr)
      j,
)
  where
    here : j ≡ base + i → bit val (j - base) ≡ bit val i
    here e = ap (bit val) (omega (arith, e))

-- A write of `size` bytes to a set- or clear-register changes exactly the interrupts whose bit in
-- the value is 1, as far as they exist, and leaves every other as it is.
pub write_bitmap_lem :
    (arr : ℕ → Bool) (byte_off size val : ℕ) (to : Bool) (j : ℕ)
    → write_bitmap arr byte_off size val to j ≡ (
        if leb (byte_off * 8) j
          && ltb j (byte_off * 8 + size * 8)
          && ltb j num_irqs
          && (bit val (j - byte_off * 8) == 1)
        then to
        else arr j)
unfolding write_bitmap
write_bitmap_lem arr byte_off size val to j =
    ground (arith, write_bits_lem (byte_off * 8) val to (size * 8) 0 arr j)
