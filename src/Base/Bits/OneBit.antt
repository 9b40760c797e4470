-- ===== src/Base/Bits/OneBit.antt =====
-- Tests of a single bit.
use Prim.Native.Nat.{ℕ, zero, suc, ◌^◌, ◌<◌, bit_and}
use mathlib.Core.Path.{◌≡◌, refl}
use mathlib.Core.Logic.{◌⊎◌, inl, inr}
use native.Mathlib.Nat.{one-le-pow}
use native.Mathlib.Omega.{arith}
use v.Base.Tests.{◌==◌, ◌!=◌}
use v.Base.Bits.Fields.{bit_and_one_at}
use v.Base.Bits.Pointwise.{bit}

pub bit-cases : (x i : ℕ) → (bit x i ≡ 0) ⊎ (bit x i ≡ 1)
bit-cases x i = below_two (bit x i) (omega arith)
  where
    below_two : (b : ℕ) → b < 2 → (b ≡ 0) ⊎ (b ≡ 1)
    below_two zero h = inl refl
    below_two (suc zero) h = inr refl
    below_two (suc (suc b)) h = absurd (omega arith)

-- `x & (1 << i) != 0` and `x & (1 << i) == 0`
pub one_at_set : (x i : ℕ) → (bit_and x (2 ^ i) != 0) ≡ (bit x i == 1)
one_at_set x i = elim (bit-cases x i) [
  | inl e ↦ rw (bit_and_one_at i x, e) (ground arith)
  | inr e ↦ rw (bit_and_one_at i x, e) (ground (arith, one-le-pow i 2))
]

pub one_at_clear : (x i : ℕ) → (bit_and x (2 ^ i) == 0) ≡ (bit x i == 0)
one_at_clear x i = elim (bit-cases x i) [
  | inl e ↦ rw (bit_and_one_at i x, e) (ground arith)
  | inr e ↦ rw (bit_and_one_at i x, e) (ground (arith, one-le-pow i 2))
]
