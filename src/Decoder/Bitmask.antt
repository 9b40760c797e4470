-- ===== src/Decoder/Bitmask.antt =====
-- crates/decoder/src/bitmask.rs: the masks of the logical-immediate and bitfield instructions.
use v.Base.{ℕ, zero, suc, ◌+◌, ◌-◌, ◌*◌, ◌/◌, ◌^◌, ◌<<<◌, ◌>>>◌, bit_and, bit_or, u32, u64, not32}
use v.Base.{Bool, ◌&&◌, Option, none, some, ◌==◌, ltb, leb, if◌then◌else◌, ◌>>=◌}

unfoldable pub ones : ℕ → ℕ
ones len = if leb 64 len then 2 ^ 64 - 1 else 2 ^ len - 1

unfoldable pub ror_within : ℕ → ℕ → ℕ → ℕ
unfolding ones
ror_within val r esize =
    if r == 0 then val else bit_and (bit_or (val >>> r) (u64 (val <<< (esize - r)))) (ones esize)

-- The `while` loop of `replicate`, with `fuel` rounds left; the element size doubles from 2 at
-- least up to 64, so six rounds are never used up. `none` is out of fuel.
unfoldable pub replicate_from : ℕ → ℕ → ℕ → Option ℕ
replicate_from zero elem e = none
replicate_from (suc fuel) elem e =
    let rest = replicate_from fuel (bit_or elem (u64 (elem <<< e))) (e * 2) in
    if ltb e 64 then rest else some elem

unfoldable pub replicate : ℕ → ℕ → Option ℕ
replicate elem esize = replicate_from 6 elem esize

-- `31 - x.leading_zeros()` for `0 < x < 2 ^ fuel`: the place of the highest bit.
unfoldable pub highest_bit : ℕ → ℕ → ℕ
highest_bit zero x = 0
highest_bit (suc fuel) x = let above = highest_bit fuel (x / 2) in if ltb x 2 then 0 else above + 1

unfoldable pub decode_bit_masks : ℕ → ℕ → ℕ → Bool → Option (ℕ × ℕ)
decode_bit_masks n imms immr immediate =
    let x = bit_or (n <<< 6) (bit_and (not32 imms) 0x3f) in
    let len = highest_bit 32 x in
    let esize = 2 ^ len in
    let levels = esize - 1 in
    let s = bit_and imms levels in
    let r = bit_and immr levels in
    let diff = bit_and (u32 (s + 2 ^ 32 - r)) levels in
    let masks : Option (ℕ × ℕ) = (do
      wmask ← replicate (ror_within (ones (s + 1)) r esize) esize
      tmask ← replicate (ones (diff + 1)) esize
      some (wmask, tmask)) in
    if x == 0
    then none
    else if ltb len 1
    then none
    else if immediate && (s == levels)
    then none
    else masks
