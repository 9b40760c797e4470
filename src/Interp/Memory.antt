-- ===== src/Interp/Memory.antt =====
-- crates/interp/src/memory.rs: guest memory behind a trait, and the flat image that implements it.
pub mod Bytes
pub mod Laws
use v.Base.{ℕ, zero, suc, ◌+◌, ◌-◌, ◌*◌, ◌/◌, ◌%◌, Option, none, some, List, leb}
use v.Base.{◌>>=◌, ◌>>◌, check, get_elem?, set?, replicate}

-- The trait. `none` is a panic of the access; a read may change the memory, as a device does.
pub record GuestMem : Type 1 where
  pub Mem : Type 0
  pub base : Mem → ℕ
  pub read_u8 : Mem → ℕ → Option (ℕ × Mem)
  pub read_u16 : Mem → ℕ → Option (ℕ × Mem)
  pub read_u32 : Mem → ℕ → Option (ℕ × Mem)
  pub read_u64 : Mem → ℕ → Option (ℕ × Mem)
  pub write_u8 : Mem → ℕ → ℕ → Option Mem
  pub write_u16 : Mem → ℕ → ℕ → Option Mem
  pub write_u32 : Mem → ℕ → ℕ → Option Mem
  pub write_u64 : Mem → ℕ → ℕ → Option Mem

pub record Memory : Type 0 where
  pub base : ℕ
  pub bytes : List ℕ

unfoldable pub new : ℕ → ℕ → Memory
new base size = record { base = base; bytes = replicate size 0 }

-- `from_le_bytes` of the `n` bytes at `o`, and `to_le_bytes` copied there; out of range they panic.
unfoldable pub read_le : ℕ → List ℕ → ℕ → Option ℕ
read_le zero bytes o = some 0
read_le (suc n) bytes o = do
  b ← get_elem? bytes o
  rest ← read_le n bytes (o + 1)
  some (b + 256 * rest)

unfoldable pub write_le : ℕ → List ℕ → ℕ → ℕ → Option (List ℕ)
write_le zero bytes o val = some bytes
write_le (suc n) bytes o val = do
  bytes' ← set? bytes o (val % 256)
  write_le n bytes' (o + 1) (val / 256)

-- An address below `base` is no offset into the image: `addr - self.base` panics, or wraps to an
-- offset that does.
unfoldable pub read_at : ℕ → Memory → ℕ → Option (ℕ × Memory)
read_at n m addr = do
  check (leb m.base addr)
  val ← read_le n m.bytes (addr - m.base)
  some (val, m)

unfoldable pub write_at : ℕ → Memory → ℕ → ℕ → Option Memory
write_at n m addr val = do
  check (leb m.base addr)
  bytes' ← write_le n m.bytes (addr - m.base) val
  some (record m { bytes = bytes' })

-- `impl_guest_mem!`
abbrev pub flat : GuestMem
flat = record {
  Mem = Memory;
  base = λ m. m.base;
  read_u8 = read_at 1;
  read_u16 = read_at 2;
  read_u32 = read_at 4;
  read_u64 = read_at 8;
  write_u8 = write_at 1;
  write_u16 = write_at 2;
  write_u32 = write_at 4;
  write_u64 = write_at 8;
}
