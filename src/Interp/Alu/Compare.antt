-- ===== src/Interp/Alu/Compare.antt =====
-- The condition codes after a comparison.
use v.Base.{ℕ, ◌+◌, ◌-◌, ◌%◌, ◌^◌, ◌<◌, ◌≡◌, Bool, true, false, arith}
use v.Base.{ltb, leb, ◌==◌, not64}
use v.Cpu.Flags.{Flags}
use v.Interp.Alu.{width_of, add_with_carry, add_with_carry_in, eval_cond}
use v.Interp.Alu.Carry.{IsSum, add_with_carry_in-IsSum}

-- A two's-complement word moved up by half the range: the order of these is the signed order.
abbrev pub signed_rank : ℕ → ℕ → ℕ
signed_rank w x = (x + 2 ^ (w - 1)) % 2 ^ w

-- What the flags of a comparison of `a` with `b` make of each condition code that names an order.
pub record Compares (w a b : ℕ) (f : Flags) : Type 0 where
  pub eq : eval_cond 0b0000 f ≡ (a == b)
  pub hs : eval_cond 0b0010 f ≡ leb b a
  pub lo : eval_cond 0b0011 f ≡ ltb a b
  pub hi : eval_cond 0b1000 f ≡ ltb b a
  pub ls : eval_cond 0b1001 f ≡ leb a b
  pub ge : eval_cond 0b1010 f ≡ leb (signed_rank w b) (signed_rank w a)
  pub lt : eval_cond 0b1011 f ≡ ltb (signed_rank w a) (signed_rank w b)
  pub gt : eval_cond 0b1100 f ≡ ltb (signed_rank w b) (signed_rank w a)
  pub le : eval_cond 0b1101 f ≡ leb (signed_rank w a) (signed_rank w b)

compares64 :
    (a b : ℕ) (r : ℕ × Flags)
    → a < 2 ^ 64
    → b < 2 ^ 64
    → IsSum 64 a (2 ^ 64 - 1 - b) 1 r
    → Compares 64 a b r.1
unfolding eval_cond
compares64 a b r la lb h = record {
  eq = ground arith;
  hs = ground arith;
  lo = ground arith;
  hi = ground arith;
  ls = ground arith;
  ge = ground arith;
  lt = ground arith;
  gt = ground arith;
  le = ground arith;
}

compares32 :
    (a b : ℕ) (r : ℕ × Flags)
    → a < 2 ^ 32
    → b < 2 ^ 32
    → IsSum 32 a (2 ^ 32 - 1 - b) 1 r
    → Compares 32 a b r.1
unfolding eval_cond
compares32 a b r la lb h = record {
  eq = ground arith;
  hs = ground arith;
  lo = ground arith;
  hi = ground arith;
  ls = ground arith;
  ge = ground arith;
  lt = ground arith;
  gt = ground arith;
  le = ground arith;
}

-- For 64-bit operands, after a subtraction that sets the flags, EQ, HS, LO, HI and LS compare the
-- operands as unsigned words of the width of the operation, and GE, LT, GT and LE as signed ones.
pub add_with_carry-Compares :
    (a b : ℕ) (sf : Bool)
    → a < 2 ^ 64
    → b < 2 ^ 64
    → Compares
        (width_of sf)
        (a % 2 ^ width_of sf)
        (b % 2 ^ width_of sf)
        (add_with_carry a b true sf).1
unfolding add_with_carry
add_with_carry-Compares a b true la lb =
    rw (small a la, small b lb) (compares64 a b _ la lb (rw (small a la, small _ low) at summed))
  where
    summed : IsSum 64 (a % 2 ^ 64) (not64 b % 2 ^ 64) 1 (add_with_carry_in a (not64 b) 1 true)
    summed = add_with_carry_in-IsSum a (not64 b) 1 true la (omega arith) (omega arith)

    small : (x : ℕ) → x < 2 ^ 64 → x % 2 ^ 64 ≡ x
    small x l = omega arith

    low : not64 b < 2 ^ 64
    low = omega arith
add_with_carry-Compares a b false la lb =
    compares32 (a % 2 ^ 32) (b % 2 ^ 32) _ (omega arith) (omega arith) (rw flipped at summed)
  where
    summed : IsSum 32 (a % 2 ^ 32) (not64 b % 2 ^ 32) 1 (add_with_carry_in a (not64 b) 1 false)
    summed = add_with_carry_in-IsSum a (not64 b) 1 false la (omega arith) (omega arith)

    flipped : not64 b % 2 ^ 32 ≡ 2 ^ 32 - 1 - b % 2 ^ 32
    flipped = omega arith
