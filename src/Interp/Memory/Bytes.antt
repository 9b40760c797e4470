-- ===== src/Interp/Memory/Bytes.antt =====
-- Little-endian values in the bytes of an image.
use v.Base.{ℕ, zero, suc, ◌+◌, ◌*◌, ◌/◌, ◌%◌, ◌≤◌, ◌<◌, ◌≡◌, refl, ◌∙◌, some, List, arith}
use v.Base.{length, get_elem?, set?-total, eq→==, ◌⊎◌, inl, inr}
use v.Interp.Memory.{read_le, write_le}

-- The low `n` bytes of a value.
abbrev pub low_bytes : ℕ → ℕ → ℕ
low_bytes zero val = 0
low_bytes (suc n) val = val % 256 + 256 * low_bytes n (val / 256)

-- A write of `n` bytes at `o` succeeds inside the image, keeps its size and every byte outside.
pub write_le_total :
    (n : ℕ) (bytes : List ℕ) (o val : ℕ)
    → o + n ≤ length bytes
    → (ys : List ℕ) × (write_le n bytes o val ≡ some ys)
      × (length ys ≡ length bytes)
      × ((j : ℕ) → (j < o) ⊎ (o + n ≤ j) → get_elem? ys j ≡ get_elem? bytes j)
      × (read_le n ys o ≡ some (low_bytes n val))
unfolding write_le read_le
write_le_total zero bytes o val h = (bytes, refl, refl, (λ j away. refl), refl)
write_le_total (suc n) bytes o val h =
    let (first, sets, same, at) = set?-total bytes o (val % 256) (omega arith) in
    let (ys, writes, size, kept, back) =
      write_le_total n first (o + 1) (val / 256) (omega (arith, same)) in
    (
      ys,
      rw (sets, writes),
      size ∙ same,
      (λ j away. elim away [
        | inl l ↦ kept j (inl (omega arith)) ∙ at j ∙ ground arith
        | inr r ↦ kept j (inr (omega arith)) ∙ at j ∙ ground arith
      ]),
      rw (kept o (inl (omega arith)), at o, eq→== o o refl, back) refl,
    )

-- A read depends on its own bytes alone.
pub read_le-ext :
    (n : ℕ) (xs ys : List ℕ) (o : ℕ)
    → ((j : ℕ) → o ≤ j → j < o + n → get_elem? xs j ≡ get_elem? ys j)
    → read_le n xs o ≡ read_le n ys o
unfolding read_le
read_le-ext zero xs ys o h = refl
read_le-ext (suc n) xs ys o h =
    rw
      (
        h o (omega arith) (omega arith),
        read_le-ext n xs ys (o + 1) (λ j l r. h j (omega arith) (omega arith)),
      )
      refl
