-- ===== src/Base/Bits/Fields.antt =====
-- A bit operation works on the part above a position and on the part below it separately; masks
-- and joins of fields follow.
use Prim.Native.Nat.{ℕ, zero, suc, ◌+◌, ◌-◌, ◌*◌, ◌/◌, ◌%◌, ◌^◌, ◌≤◌, ◌<◌, min, max}
use Prim.Native.Nat.{bit_and, bit_or, bit_and-bitwise, bit_or-bitwise}
use mathlib.Core.Path.{◌≡◌, refl, ap}
use native.Mathlib.Nat.{pow-suc, one-le-pow, add-zero, zero-add, zero-mul}
use native.Mathlib.Omega.{arith}
use v.Base.Bits.Digits.{bit_and_lowest, bit_or_lowest}

double_pow : (q k : ℕ) → q * 2 ^ suc k ≡ q * 2 ^ k * 2
double_pow q k = omega (arith, ap (λ (t : ℕ). q * t) (pow-suc 2 k))

module _ (op f : ℕ → ℕ → ℕ)
    (lowest : (a b : ℕ) → op a b ≡ op (a / 2) (b / 2) * 2 + f (a % 2) (b % 2))
    (rest : op 0 0 ≡ 0) where
  split_at :
      (k q r p s : ℕ)
      → r < 2 ^ k
      → s < 2 ^ k
      → op (q * 2 ^ k + r) (p * 2 ^ k + s) ≡ op q p * 2 ^ k + op r s
  split_at zero q zero p zero h i = omega (arith, rest, same_args)
    where
      same_args : op (q * 1 + 0) (p * 1 + 0) ≡ op q p
      same_args = λ i. op (same_q i) (same_p i)
        where
          same_q : q * 1 + 0 ≡ q
          same_q = omega arith

          same_p : p * 1 + 0 ≡ p
          same_p = omega arith
  split_at zero q (suc r) p s h i = absurd (omega arith)
  split_at zero q zero p (suc s) h i = absurd (omega arith)
  split_at (suc k) q r p s h i = ground (
    arith,
    lowest (q * 2 ^ suc k + r) (p * 2 ^ suc k + s),
    lowest r s,
    double_pow q k,
    double_pow p k,
    double_pow (op q p) k,
    pow-suc 2 k,
    split_at k q (r / 2) p (s / 2),
  )

pub bit_and-zero : (a : ℕ) → bit_and a 0 ≡ 0
bit_and-zero a = below a a (omega arith)
  where
    below : (n a : ℕ) → a ≤ n → bit_and a 0 ≡ 0
    below n zero h = refl
    below zero (suc a) h = absurd (omega arith)
    below (suc n) (suc a) h =
        omega (arith, bit_and_lowest (suc a) 0, below n (suc a / 2) (omega arith))

pub bit_or-zero : (a : ℕ) → bit_or a 0 ≡ a
bit_or-zero a = below a a (omega arith)
  where
    below : (n a : ℕ) → a ≤ n → bit_or a 0 ≡ a
    below n zero h = refl
    below zero (suc a) h = absurd (omega arith)
    below (suc n) (suc a) h =
        omega (arith, bit_or_lowest (suc a) 0, below n (suc a / 2) (omega arith))

pub zero-bit_or : (b : ℕ) → bit_or 0 b ≡ b
zero-bit_or b = bit_or-bitwise 0 b

pub zero-bit_and : (b : ℕ) → bit_and 0 b ≡ 0
zero-bit_and b = bit_and-bitwise 0 b

pub bit_or_split :
    (k q r p s : ℕ)
    → r < 2 ^ k
    → s < 2 ^ k
    → bit_or (q * 2 ^ k + r) (p * 2 ^ k + s) ≡ bit_or q p * 2 ^ k + bit_or r s
bit_or_split = split_at bit_or max bit_or_lowest refl

pub bit_and_split :
    (k q r p s : ℕ)
    → r < 2 ^ k
    → s < 2 ^ k
    → bit_and (q * 2 ^ k + r) (p * 2 ^ k + s) ≡ bit_and q p * 2 ^ k + bit_and r s
bit_and_split = split_at bit_and min bit_and_lowest refl

-- A value above a position or-ed with a value below it is their sum, in either order.
pub bit_or_join : (k q r : ℕ) → r < 2 ^ k → bit_or (q * 2 ^ k) r ≡ q * 2 ^ k + r
bit_or_join k q r h =
    simp (add-zero, zero-mul, zero-add, bit_or-zero, zero-bit_or) at
      (bit_or_split k q 0 0 r (omega (arith, one-le-pow k 2)) h)

pub bit_or_join_low : (k q r : ℕ) → r < 2 ^ k → bit_or r (q * 2 ^ k) ≡ q * 2 ^ k + r
bit_or_join_low k q r h =
    simp (add-zero, zero-mul, zero-add, bit_or-zero, zero-bit_or) at
      (bit_or_split k 0 r q 0 h (omega (arith, one-le-pow k 2)))

-- The same where the upper part is known only to have no bit below the position.
pub bit_or_add : (k a r : ℕ) → a % 2 ^ k ≡ 0 → r < 2 ^ k → bit_or a r ≡ a + r
bit_or_add k a r e h = rw multiple (bit_or_join k (a / 2 ^ k) r h)
  where
    multiple : a ≡ a / 2 ^ k * 2 ^ k
    multiple = omega (arith, one-le-pow k 2)

below_mask : (k r : ℕ) → r < 2 ^ k → bit_and r (2 ^ k - 1) ≡ r
below_mask zero zero h = refl
below_mask zero (suc r) h = absurd (omega arith)
below_mask (suc k) r h =
    ground
      (arith, bit_and_lowest r (2 ^ suc k - 1), pow-suc 2 k, one-le-pow k 2, below_mask k (r / 2))

-- A mask of `m` ones at position `k` leaves that field.
pub bit_and_field : (k m x : ℕ) → bit_and x ((2 ^ m - 1) * 2 ^ k) ≡ x / 2 ^ k % 2 ^ m * 2 ^ k
bit_and_field k m x = ground (
  arith,
  one-le-pow k 2,
  one-le-pow m 2,
  bit_and_split k (x / 2 ^ k) (x % 2 ^ k) (2 ^ m - 1) 0,
  bit_and-zero (x % 2 ^ k),
  bit_and_split m (x / 2 ^ k / 2 ^ m) (x / 2 ^ k % 2 ^ m) 0 (2 ^ m - 1),
  bit_and-zero (x / 2 ^ k / 2 ^ m),
  below_mask m (x / 2 ^ k % 2 ^ m),
)

pub bit_and_low : (m x : ℕ) → bit_and x (2 ^ m - 1) ≡ x % 2 ^ m
bit_and_low m x = ground (arith, bit_and_field 0 m x)

-- `x & (1 << k)`
pub bit_and_one_at : (k x : ℕ) → bit_and x (2 ^ k) ≡ x / 2 ^ k % 2 * 2 ^ k
bit_and_one_at k x = ground (arith, bit_and_field k 1 x)
