-- ===== src/Base/Bits/Pointwise.antt =====
-- The bit at a position of the result, from the bits at that position.
use Prim.Native.Nat.{ℕ, zero, suc, ◌+◌, ◌/◌, ◌%◌, ◌^◌, min, max, bit_and, bit_or, bit_xor}
use mathlib.Core.Path.{◌≡◌}
use native.Mathlib.Nat.{pow-succ', div-div-eq-div-mul, div-one}
use native.Mathlib.Omega.{arith}
use v.Base.Bits.Digits.{bit_and_lowest, bit_or_lowest, bit_xor_lowest, differ_digits}

-- `(x >> i) & 1`
abbrev pub bit : ℕ → ℕ → ℕ
bit x i = x / 2 ^ i % 2

bit-suc : (x i : ℕ) → bit x (suc i) ≡ bit (x / 2) i
bit-suc x i = rw (pow-succ', ← div-div-eq-div-mul)

pub bit-bit_and : (x y i : ℕ) → bit (bit_and x y) i ≡ min (bit x i) (bit y i)
bit-bit_and x y zero = omega (arith, bit_and_lowest x y)
bit-bit_and x y (suc i) = ground (
  arith,
  bit-suc x i,
  bit-suc y i,
  bit-suc (bit_and x y) i,
  bit_and_lowest x y,
  bit-bit_and (x / 2) (y / 2) i,
  halved,
)
  where
    halved : bit_and x y / 2 ≡ bit_and (x / 2) (y / 2)
    halved = omega (arith, bit_and_lowest x y)

pub bit-bit_or : (x y i : ℕ) → bit (bit_or x y) i ≡ max (bit x i) (bit y i)
bit-bit_or x y zero = omega (arith, bit_or_lowest x y)
bit-bit_or x y (suc i) =
    ground (
      arith,
      bit-suc x i,
      bit-suc y i,
      bit-suc (bit_or x y) i,
      bit-bit_or (x / 2) (y / 2) i,
      halved,
    )
  where
    halved : bit_or x y / 2 ≡ bit_or (x / 2) (y / 2)
    halved = omega (arith, bit_or_lowest x y)

xor_digit : (a b : ℕ) → bit_xor a b % 2 ≡ (a % 2 + b % 2) % 2
xor_digit a b =
    omega (arith, bit_xor_lowest a b, differ_digits (a % 2) (b % 2) (omega arith) (omega arith))

pub bit-bit_xor : (x y i : ℕ) → bit (bit_xor x y) i ≡ (bit x i + bit y i) % 2
bit-bit_xor x y zero = omega (arith, xor_digit x y)
bit-bit_xor x y (suc i) = ground (
  arith,
  bit-suc x i,
  bit-suc y i,
  bit-suc (bit_xor x y) i,
  bit-bit_xor (x / 2) (y / 2) i,
  halved,
)
  where
    halved : bit_xor x y / 2 ≡ bit_xor (x / 2) (y / 2)
    halved =
        omega (arith, bit_xor_lowest x y, differ_digits (x % 2) (y % 2) (omega arith) (omega arith))

-- A shift to the right goes through the operations.
pub bit_and-shift : (x y k : ℕ) → bit_and x y / 2 ^ k ≡ bit_and (x / 2 ^ k) (y / 2 ^ k)
bit_and-shift x y zero = simp div-one
bit_and-shift x y (suc k) =
    simp (pow-succ', ← div-div-eq-div-mul, halved) (bit_and-shift (x / 2) (y / 2) k)
  where
    halved : bit_and x y / 2 ≡ bit_and (x / 2) (y / 2)
    halved = omega (arith, bit_and_lowest x y)

pub bit_or-shift : (x y k : ℕ) → bit_or x y / 2 ^ k ≡ bit_or (x / 2 ^ k) (y / 2 ^ k)
bit_or-shift x y zero = simp div-one
bit_or-shift x y (suc k) =
    simp (pow-succ', ← div-div-eq-div-mul, halved) (bit_or-shift (x / 2) (y / 2) k)
  where
    halved : bit_or x y / 2 ≡ bit_or (x / 2) (y / 2)
    halved = omega (arith, bit_or_lowest x y)
