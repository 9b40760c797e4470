-- ===== src/Interp/MemAccess.antt =====
-- crates/interp/src/mem_access.rs: sized accesses at virtual addresses. An access that faults is
-- dropped and leaves the fault in `pending_abort`; `none` is a panic.
pub mod Frame
pub mod Gather
pub mod Bytewise
pub mod Total
use v.Base.{ℕ, zero, suc, ◌+◌, ◌-◌, ◌*◌, ◌/◌, ◌%◌, ◌^◌, ◌<<<◌, ◌>>>◌, bit_and, bit_or, not64, min}
use v.Base.{u8, u16, u32, u64, Bool, true, false, Option, none, some, Result, ok, err}
use v.Base.{◌==◌, ◌!=◌, leb, ltb, if◌then◌else◌, ◌>>=◌, ◌>>◌, check}
use v.Cpu.State.{CpuState, Abort, read_gpr}
use v.Decoder.Branch.{sysreg_key}
use v.Interp.Exception.{get_sysreg}
use v.Interp.Memory.{GuestMem}
use v.Interp.Mmu.{Access, translate}

abbrev pub page_size : ℕ
page_size = 0x1000

abbrev pub fsc_alignment : ℕ
fsc_alignment = 0b10_0001

-- `cpu.pending_abort.is_some()`
abbrev pub is_some {ℓ} : {A : Type ℓ} → Option A → Bool
is_some none = false
is_some (some a) = true

abbrev pub aborted : CpuState → Bool
aborted cpu = is_some cpu.pending_abort

abbrev pub in_one_page : ℕ → ℕ → Bool
in_one_page va n = leb (bit_and va (page_size - 1) + n) page_size

-- The end of the page of an address.
abbrev pub page_end : ℕ → ℕ
page_end cur = bit_and cur (not64 (page_size - 1)) + page_size

unfoldable pub align_check : CpuState → ℕ → ℕ → Bool → CpuState × Bool
align_check cpu va bytes write =
    if bit_and va (bytes - 1) != 0
    then (
      record cpu { pending_abort = some (record { far = va; write = write; fsc = fsc_alignment }) },
      true,
    )
    else (cpu, false)

module _ (M : GuestMem) where
  open M use {Mem, read_u8, read_u16, read_u32, read_u64, write_u8, write_u16, write_u32, write_u64}

  -- The `match` on the translation.
  unfoldable pub recorded : Result ℕ ℕ → CpuState → Mem → ℕ → Bool → Option ℕ × CpuState × Mem
  recorded (ok pa) cpu mem va write = (some pa, cpu, mem)
  recorded (err fsc) cpu mem va write = (
    none,
    record cpu { pending_abort = some (record { far = va; write = write; fsc = fsc }) },
    mem,
  )

  unfoldable pub xlate : CpuState → Mem → ℕ → Bool → ℕ → Option (Option ℕ × CpuState × Mem)
  unfolding recorded
  xlate cpu mem va write el = do
    (r, cpu', mem') ← translate M cpu mem va (if write then Access.write else Access.read) el
    some (recorded r cpu' mem' va write)

  -- The inner loop of `gather`: `left` bytes from `pa`, the first of them byte `at` of the value.
  unfoldable pub gather_bytes : ℕ → Mem → ℕ → ℕ → ℕ → Option (ℕ × Mem)
  gather_bytes zero mem pa at val = some (val, mem)
  gather_bytes (suc left) mem pa at val = do
    (byte, mem') ← read_u8 mem pa
    gather_bytes left mem' (pa + 1) (at + 1) (bit_or val (byte <<< (at * 8)))

  unfoldable pub scatter_bytes : ℕ → Mem → ℕ → ℕ → ℕ → Option Mem
  scatter_bytes zero mem pa at val = some mem
  scatter_bytes (suc left) mem pa at val = do
    mem' ← write_u8 mem pa (u8 (val >>> (at * 8)))
    scatter_bytes left mem' (pa + 1) (at + 1) val

  -- The loop of `gather` with `fuel` rounds left; a round gathers a byte at least.
  unfoldable pub gather_from : ℕ → CpuState → Mem → ℕ → ℕ → ℕ → ℕ → ℕ → Option (ℕ × CpuState × Mem)
  gather_from zero cpu mem va n el done val = none
  gather_from (suc fuel) cpu mem va n el done val =
      let cur = va + done in
      let chunk = min (n - done) (page_end cur - cur) in
      let rest : Option (ℕ × CpuState × Mem) = do
        check (ltb (page_end cur) (2 ^ 64))
        (pa?, cpu', mem') ← xlate cpu mem cur false el
        elim pa? [
          | none ↦ some (0, cpu', mem')
          | some pa ↦ (do
            (val', mem″) ← gather_bytes chunk mem' pa done val
            gather_from fuel cpu' mem″ va n el (done + chunk) val')
        ]
      in if ltb done n then rest else some (val, cpu, mem)

  unfoldable pub gather : CpuState → Mem → ℕ → ℕ → ℕ → Option (ℕ × CpuState × Mem)
  gather cpu mem va n el = gather_from (n + 1) cpu mem va n el 0 0

  unfoldable pub scatter_from : ℕ → CpuState → Mem → ℕ → ℕ → ℕ → ℕ → ℕ → Option (CpuState × Mem)
  scatter_from zero cpu mem va n val el done = none
  scatter_from (suc fuel) cpu mem va n val el done =
      let cur = va + done in
      let chunk = min (n - done) (page_end cur - cur) in
      let rest : Option (CpuState × Mem) = do
        check (ltb (page_end cur) (2 ^ 64))
        (pa?, cpu', mem') ← xlate cpu mem cur true el
        elim pa? [
          | none ↦ some (cpu', mem')
          | some pa ↦ (do
            mem″ ← scatter_bytes chunk mem' pa done val
            scatter_from fuel cpu' mem″ va n val el (done + chunk))
        ]
      in if ltb done n then rest else some (cpu, mem)

  unfoldable pub scatter : CpuState → Mem → ℕ → ℕ → ℕ → ℕ → Option (CpuState × Mem)
  scatter cpu mem va n val el = scatter_from (n + 1) cpu mem va n val el 0

  -- The `match size` of the two fast paths.
  unfoldable pub read_sized : Mem → ℕ → ℕ → Option (ℕ × Mem)
  read_sized mem pa size =
      if size == 0
      then read_u8 mem pa
      else if size == 1
      then read_u16 mem pa
      else if size == 2
      then read_u32 mem pa
      else read_u64 mem pa

  unfoldable pub write_sized : Mem → ℕ → ℕ → ℕ → Option Mem
  write_sized mem pa size val =
      if size == 0
      then write_u8 mem pa (u8 val)
      else if size == 1
      then write_u16 mem pa (u16 val)
      else if size == 2
      then write_u32 mem pa (u32 val)
      else write_u64 mem pa val

  -- The fast path of `read_at`, and the gathering of an access that crosses a page.
  unfoldable pub read_within : CpuState → Mem → ℕ → ℕ → ℕ → Option (ℕ × CpuState × Mem)
  read_within cpu mem va size el = do
    (pa?, cpu', mem') ← xlate cpu mem va false el
    elim pa? [
      | none ↦ some (0, cpu', mem')
      | some pa ↦ (do (val, mem″) ← read_sized mem' pa size; some (val, cpu', mem″))
    ]

  unfoldable pub read_across : CpuState → Mem → ℕ → ℕ → ℕ → Option (ℕ × CpuState × Mem)
  read_across cpu mem va n el = do
    (val, cpu', mem') ← gather cpu mem va n el
    some (u64 val, cpu', mem')

  unfoldable pub read_at : CpuState → Mem → ℕ → ℕ → ℕ → Option (ℕ × CpuState × Mem)
  unfolding read_within read_across
  read_at cpu mem va size el =
      let n = 1 <<< size in
      if in_one_page va n then read_within cpu mem va size el else read_across cpu mem va n el

  unfoldable pub write_within : CpuState → Mem → ℕ → ℕ → ℕ → ℕ → Option (CpuState × Mem)
  write_within cpu mem va size val el = do
    (pa?, cpu', mem') ← xlate cpu mem va true el
    elim pa? [
      | none ↦ some (cpu', mem')
      | some pa ↦ (do mem″ ← write_sized mem' pa size val; some (cpu', mem″))
    ]

  unfoldable pub write_at : CpuState → Mem → ℕ → ℕ → ℕ → ℕ → Option (CpuState × Mem)
  unfolding write_within
  write_at cpu mem va size val el =
      let n = 1 <<< size in
      if in_one_page va n then write_within cpu mem va size val el else scatter cpu mem va n val el

  unfoldable pub read : CpuState → Mem → ℕ → ℕ → Option (ℕ × CpuState × Mem)
  read cpu mem va size = read_at cpu mem va size cpu.el

  unfoldable pub write : CpuState → Mem → ℕ → ℕ → ℕ → Option (CpuState × Mem)
  write cpu mem va size val = write_at cpu mem va size val cpu.el

  unfoldable pub read_unpriv : CpuState → Mem → ℕ → ℕ → Option (ℕ × CpuState × Mem)
  read_unpriv cpu mem va size = read_at cpu mem va size 0

  unfoldable pub write_unpriv : CpuState → Mem → ℕ → ℕ → ℕ → Option (CpuState × Mem)
  write_unpriv cpu mem va size val = write_at cpu mem va size val 0

  unfoldable pub read_vec : CpuState → Mem → ℕ → ℕ → Option (ℕ × CpuState × Mem)
  read_vec cpu mem va log2 = gather cpu mem va (1 <<< log2) cpu.el

  unfoldable pub write_vec : CpuState → Mem → ℕ → ℕ → ℕ → Option (CpuState × Mem)
  write_vec cpu mem va log2 val = scatter cpu mem va (1 <<< log2) val cpu.el

  -- The loop of `dc_zva` with `left` bytes to zero.
  unfoldable pub zero_from : ℕ → CpuState → Mem → ℕ → Option (CpuState × Mem)
  zero_from zero cpu mem va = some (cpu, mem)
  zero_from (suc left) cpu mem va = do
    (cpu', mem') ← write cpu mem va 0 0
    if aborted cpu' then some (cpu', mem') else zero_from left cpu' mem' (va + 1)

  unfoldable pub dc_zva : CpuState → Mem → ℕ → Option (CpuState × Mem)
  dc_zva cpu mem rt =
      let bytes = 4 <<< bit_and (get_sysreg cpu.sysregs (sysreg_key 3 3 0 0 7)) 0xf in
      do x ← read_gpr cpu rt false; zero_from bytes cpu mem (bit_and x (not64 (bytes - 1)))
