-- ===== src/Cpu/Flags.antt =====
-- crates/cpu/src/flags.rs: the NZCV condition flags and their packed form.
use v.Base.{ℕ, ◌+◌, ◌*◌, ◌/◌, ◌^◌, ◌<◌, ◌<<<◌, ◌>>>◌, ◌≡◌, bit_and, bit_or, Bool, arith}
use v.Base.{◌==◌, bit_of}
use v.Base.Bits.{bit_and_low}

-- The field `v` of the source is `vf` here.
pub record Flags : Type 0 where
  pub n : Bool
  pub z : Bool
  pub c : Bool
  pub vf : Bool

pub to_nzcv : Flags → ℕ
to_nzcv f =
    bit_or (bit_or (bit_or (bit_of f.n <<< 31) (bit_of f.z <<< 30)) (bit_of f.c <<< 29))
      (bit_of f.vf <<< 28)

pub from_nzcv : ℕ → Flags
from_nzcv w = record {
  n = bit_and (w >>> 31) 1 == 1;
  z = bit_and (w >>> 30) 1 == 1;
  c = bit_and (w >>> 29) 1 == 1;
  vf = bit_and (w >>> 28) 1 == 1;
}

-- The four bits as one number, from N down to V.
abbrev pub nibble : Flags → ℕ
nibble f = bit_of f.n * 8 + bit_of f.z * 4 + bit_of f.c * 2 + bit_of f.vf

pub to_nzcv_as_nibble : (f : Flags) → to_nzcv f ≡ nibble f * 2 ^ 28
unfolding to_nzcv
to_nzcv_as_nibble f = ground arith

-- Packing the flags and unpacking them gives them back, whatever lies below bit 28.
pub from_nzcv_low : (f : Flags) (low : ℕ) → low < 2 ^ 28 → from_nzcv (to_nzcv f + low) ≡ f
unfolding from_nzcv
from_nzcv_low f low h = ground (
  arith,
  to_nzcv_as_nibble f,
  bit_and_low 1 ((to_nzcv f + low) / 2 ^ 31),
  bit_and_low 1 ((to_nzcv f + low) / 2 ^ 30),
  bit_and_low 1 ((to_nzcv f + low) / 2 ^ 29),
  bit_and_low 1 ((to_nzcv f + low) / 2 ^ 28),
)
