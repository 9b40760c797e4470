-- ===== src/Interp/Alu/Carry.antt =====
-- Addition with carry, read as an addition of integers.
use v.Base.{ℕ, ◌+◌, ◌-◌, ◌*◌, ◌/◌, ◌%◌, ◌^◌, ◌≤◌, ◌<◌, ◌≡◌, Bool, true, false, not, ◌&&◌, arith}
use v.Base.{bit_of, ltb, leb, ◌==◌, min, bit_and, bit_xor, u64}
use v.Base.Bits.{bit, bit_and_low, bit_and_one_at, bit-bit_and, bit-bit_xor}
use v.Cpu.Flags.{Flags}
use v.Interp.Alu.{width_of, flags_from, add_with_carry_in}

-- A sum of two's-complement words of `w` bits lies in the signed range: with the sign bits moved
-- across, -2 ^ (w - 1) ≤ a + b + carry < 2 ^ (w - 1) as integers.
abbrev pub fits_signed : ℕ → ℕ → ℕ → ℕ → Bool
fits_signed w a b carry =
    let signs = 2 ^ w * (bit a (w - 1) + bit b (w - 1)) in
    leb signs (a + b + carry + 2 ^ (w - 1)) && ltb (a + b + carry) (signs + 2 ^ (w - 1))

-- What an addition of words of `w` bits promises of its result and flags.
pub record IsSum (w a b carry : ℕ) (r : ℕ × Flags) : Type 0 where
  pub total : r.0 + 2 ^ w * bit_of r.1.c ≡ a + b + carry
  pub small : r.0 < 2 ^ w
  pub negative : r.1.n ≡ leb (2 ^ (w - 1)) r.0
  pub zero_flag : r.1.z ≡ (r.0 == 0)
  pub overflow : r.1.vf ≡ not (fits_signed w a b carry)

-- The sign bit of `(a ^ s) & (b ^ s)` is set when `a` and `b` agree and `s` differs from both.
overflow_bit :
    (a b s k : ℕ)
    → bit_and (bit_and (bit_xor a s) (bit_xor b s) / 2 ^ k) 1
      ≡ min ((bit a k + bit s k) % 2) ((bit b k + bit s k) % 2)
overflow_bit a b s k =
    rw (bit_and_low 1 _, ← bit-bit_xor a s k, ← bit-bit_xor b s k)
      (bit-bit_and (bit_xor a s) (bit_xor b s) k)

sum64 :
    (a b carry : ℕ)
    → a < 2 ^ 64
    → b < 2 ^ 64
    → carry ≤ 1
    → IsSum 64 a b carry (add_with_carry_in a b carry true)
unfolding add_with_carry_in flags_from
sum64 a b carry la lb lc =
    let s = u64 (u64 (a + b) + carry) in
    record {
      total = ground arith;
      small = omega arith;
      negative = ground (arith, bit_and_one_at 63 s);
      zero_flag = ground (arith, bit_and_low 64 s);
      overflow = ground (arith, overflow_bit a b s 63);
    }

sum32 :
    (a b carry : ℕ)
    → carry ≤ 1
    → IsSum 32 (a % 2 ^ 32) (b % 2 ^ 32) carry (add_with_carry_in a b carry false)
unfolding add_with_carry_in flags_from
sum32 a b carry lc =
    rw (bit_and_low 32 a, bit_and_low 32 b, bit_and_low 32 (a % 2 ^ 32 + b % 2 ^ 32 + carry))
      (let wide = a % 2 ^ 32 + b % 2 ^ 32 + carry in
        let s = wide % 2 ^ 32 in
        record {
          total = ground (arith, bit_and_low 1 (wide / 2 ^ 32));
          small = omega arith;
          negative = ground (arith, bit_and_one_at 31 s);
          zero_flag = ground (arith, bit_and_low 32 s);
          overflow = ground (arith, overflow_bit (a % 2 ^ 32) (b % 2 ^ 32) s 31);
        })

-- For 64-bit operands and a carry of at most 1, the result and flags of an addition with carry are
-- those of the integer sum at the width of the operation: the carry flag is what the word leaves
-- off, the negative flag its top bit, the zero flag its being zero, and the overflow flag that the
-- signed sum is out of range.
pub add_with_carry_in-IsSum :
    (a b carry : ℕ) (sf : Bool)
    → a < 2 ^ 64
    → b < 2 ^ 64
    → carry ≤ 1
    → IsSum
        (width_of sf)
        (a % 2 ^ width_of sf)
        (b % 2 ^ width_of sf)
        carry
        (add_with_carry_in a b carry sf)
add_with_carry_in-IsSum a b carry true la lb lc =
    rw (small a la, small b lb) (sum64 a b carry la lb lc)
  where
    small : (x : ℕ) → x < 2 ^ 64 → x % 2 ^ 64 ≡ x
    small x l = omega arith
add_with_carry_in-IsSum a b carry false la lb lc = sum32 a b carry lc
