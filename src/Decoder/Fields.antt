-- ===== src/Decoder/Fields.antt =====
-- crates/decoder/src/bits.rs: the bit fields of an instruction word.
use v.Base.{ℕ, ◌-◌, ◌/◌, ◌%◌, ◌^◌, ◌<◌, ◌≡◌, ◌<<<◌, ◌>>>◌, bit_and, u64, asr, Bool, ◌==◌, arith}
use native.Mathlib.Nat.{one-le-pow}
use v.Base.Bits.{bit_and_low}

unfoldable pub sf : ℕ → Bool
sf word = bit_and (word >>> 31) 1 == 1

unfoldable pub field : ℕ → ℕ → ℕ → ℕ
field word lsb len = bit_and (word >>> lsb) (2 ^ len - 1)

unfoldable pub sfield : ℕ → ℕ → ℕ → ℕ
sfield word lsb len = asr 64 (u64 (field word lsb len <<< (64 - len))) (64 - len)

-- `len` bits of the word from `lsb` on.
pub field_lem : (word lsb len : ℕ) → field word lsb len ≡ word / 2 ^ lsb % 2 ^ len
unfolding field
field_lem word lsb len = bit_and_low len (word / 2 ^ lsb)

pub field-lt : (word lsb len : ℕ) → field word lsb len < 2 ^ len
field-lt word lsb len = omega (arith, field_lem word lsb len, one-le-pow len 2)

-- The 5-bit register fields.
pub rd-lt : (word : ℕ) → field word 0 5 < 32
rd-lt word = field-lt word 0 5

pub rn-lt : (word : ℕ) → field word 5 5 < 32
rn-lt word = field-lt word 5 5

pub ra-lt : (word : ℕ) → field word 10 5 < 32
ra-lt word = field-lt word 10 5

pub rm-lt : (word : ℕ) → field word 16 5 < 32
rm-lt word = field-lt word 16 5

pub ruleset register_fields = (rd-lt, rn-lt, ra-lt, rm-lt)
