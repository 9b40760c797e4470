-- ===== src/Base/Words.antt =====
-- Machine words as native numbers: casts cut bits off, a shift multiplies or divides, and a
-- two's-complement value is its bit pattern.
use Prim.Native.Nat.{ℕ, ◌+◌, ◌-◌, ◌*◌, ◌/◌, ◌%◌, ◌^◌, bit_or}
use v.Base.Tests.{ltb, if◌then◌else◌}

-- `x as u8`, and the other widths
abbrev pub u8 : ℕ → ℕ
u8 x = x % 2 ^ 8

abbrev pub u16 : ℕ → ℕ
u16 x = x % 2 ^ 16

abbrev pub u32 : ℕ → ℕ
u32 x = x % 2 ^ 32

abbrev pub u64 : ℕ → ℕ
u64 x = x % 2 ^ 64

infixl 68 ◌<<<◌ ◌>>>◌
-- `x << k` before the bits above the word are cut off
abbrev pub ◌<<<◌ : ℕ → ℕ → ℕ
x <<< k = x * 2 ^ k

abbrev pub ◌>>>◌ : ℕ → ℕ → ℕ
x >>> k = x / 2 ^ k

-- `1 << k`
abbrev pub one_at : ℕ → ℕ
one_at k = 2 ^ k

-- `!x` at 32 and 64 bits
abbrev pub not32 : ℕ → ℕ
not32 x = 2 ^ 32 - 1 - x

abbrev pub not64 : ℕ → ℕ
not64 x = 2 ^ 64 - 1 - x

-- `a.wrapping_add(b)` and `a.wrapping_sub(b)` on u64; `-` on ℕ stops at 0
abbrev pub wrapping_add : ℕ → ℕ → ℕ
wrapping_add a b = u64 (a + b)

abbrev pub wrapping_sub : ℕ → ℕ → ℕ
wrapping_sub a b = u64 (a + 2 ^ 64 - b)

-- `x >> k` on a signed word of `w` bits, by the bit patterns: a negative value is the complement
-- of a non-negative one, which the shift keeps.
abbrev pub asr : ℕ → ℕ → ℕ → ℕ
asr w x k = if ltb x (2 ^ (w - 1)) then x / 2 ^ k else 2 ^ w - 1 - (2 ^ w - 1 - x) / 2 ^ k

-- `x.rotate_right(k)` at `w` bits, for `k` below `w`
abbrev pub rotate_right : ℕ → ℕ → ℕ → ℕ
rotate_right w x k = bit_or (x / 2 ^ k) (x * 2 ^ (w - k) % 2 ^ w)

-- `x as iN as i64 as u64` for a value of `w` bits
abbrev pub sign_extend : ℕ → ℕ → ℕ
sign_extend w x = if ltb x (2 ^ (w - 1)) then x else x + 2 ^ 64 - 2 ^ w
