-- ===== src/Interp/Memory/Laws.antt =====
-- The flat image as a memory: what is written is read back, and what is apart is not touched.
use v.Base.{ℕ, ◌+◌, ◌-◌, ◌%◌, ◌^◌, ◌≤◌, ◌<◌, ◌≡◌, refl, true, Option, none, some, List, arith}
use v.Base.{◌>>=◌, leb, length, ◌⊎◌, inl, inr, Bool-cases}
use v.Interp.Memory.{Memory, read_le, read_at, write_at, flat}
use v.Interp.Memory.Bytes.{low_bytes, write_le_total, read_le-ext}
use v.Interp.Mmu.Walk.{ReadsPure}

-- `n` bytes at an address lie in the image.
pub record Inside (n : ℕ) (m : Memory) (addr : ℕ) : Type 0 where
  pub above : m.base ≤ addr
  pub below : addr + n ≤ m.base + length m.bytes

-- What a write of `n` bytes did when it left `m'`.
pub record Written (n addr val : ℕ) (m m' : Memory) : Type 0 where
  pub base : m'.base ≡ m.base
  pub size : length m'.bytes ≡ length m.bytes
  pub back : read_at n m' addr ≡ some (low_bytes n val, m')
  pub apart :
      (k a : ℕ)
      → (a + k ≤ addr) ⊎ (addr + n ≤ a)
      → read_at k m' a ≡ (read_at k m a >>= λ r. some (r.0, m'))

apart_read :
    (k a : ℕ) (m : Memory) (ys : List ℕ)
    → (m.base ≤ a → read_le k ys (a - m.base) ≡ read_le k m.bytes (a - m.base))
    → let m' = record m { bytes = ys } in read_at k m' a ≡ (read_at k m a >>= λ r. some (r.0, m'))
unfolding read_at
apart_read k a m ys same = elim (Bool-cases (leb m.base a)) [
  | inr low ↦ rw low refl
  | inl inside ↦ rw (inside, same (ground arith)) (bound (read_le k m.bytes (a - m.base)))
]
  where
    bound :
        (o : Option ℕ)
        → ◌>>=◌ {B = ℕ × Memory} o (λ val. some (val, record m { bytes = ys })) ≡ (
            ◌>>=◌ {B = ℕ × Memory} o (λ val. some (val, m)) >>= λ r.
            some (r.0, record m { bytes = ys }))
    bound none = refl
    bound (some val) = refl

-- A write inside the image succeeds; the same bytes read back are the low bytes of the value, and
-- every read of bytes apart from them returns what it returned before.
pub write_at-Written :
    (n : ℕ) (m : Memory) (addr val : ℕ)
    → Inside n m addr
    → (m' : Memory) × (write_at n m addr val ≡ some m') × Written n addr val m m'
unfolding write_at read_at
write_at-Written n m addr val h =
    let (ys, writes, size, kept, back) =
      write_le_total n m.bytes (addr - m.base) val (omega (arith, h)) in
    let m' = record m { bytes = ys } in
    let inside : leb m.base addr ≡ true = ground arith in
    (
      m',
      rw (inside, writes) refl,
      record {
        base = refl;
        size = size;
        back = rw (inside, back) refl;
        apart = λ k a away.
            apart_read k a m ys
              λ up. read_le-ext k ys m.bytes (a - m.base) λ j l r. kept j (aside k a j away up l r);
      },
    )
  where
    aside :
        (k a j : ℕ)
        → (a + k ≤ addr) ⊎ (addr + n ≤ a)
        → m.base ≤ a
        → a - m.base ≤ j
        → j < a - m.base + k
        → (j < addr - m.base) ⊎ (addr - m.base + n ≤ j)
    aside k a j (inl w) up l r = inl (omega (arith, h))
    aside k a j (inr w) up l r = inr (omega (arith, h))

-- The low bytes of a value at the widths of the trait are the value cut to that width.
low_bytes_mod :
    (val : ℕ)
    → (low_bytes 1 val ≡ val % 2 ^ 8)
      × (low_bytes 2 val ≡ val % 2 ^ 16)
      × (low_bytes 4 val ≡ val % 2 ^ 32)
      × (low_bytes 8 val ≡ val % 2 ^ 64)
low_bytes_mod val = omega arith

-- Reading the flat image does not change it, as the table walk asks of a memory.
pub flat-ReadsPure : ReadsPure flat
unfolding read_at
flat-ReadsPure mem mem' addr val e = elim (Bool-cases (leb mem.base addr)) [
  | inl inside ↦ unchanged (read_le 8 mem.bytes (addr - mem.base)) (rw inside at e)
  | inr low ↦ cc
]
  where
    unchanged :
        (o : Option ℕ)
        → ◌>>=◌ {B = ℕ × Memory} o (λ x. some (x, mem)) ≡ some (val, mem')
        → mem' ≡ mem
    unchanged none e = cc
    unchanged (some x) e = cc
