-- ===== src/Interp/Simd/Struct.antt =====
-- crates/interp/src/simd/ldst_struct.rs: loads and stores of structures, over the registers of a
-- vector. A shift that leaves the 128 bits of a register panics.
pub mod Retry
use v.Base.{ℕ, zero, suc, ◌+◌, ◌-◌, ◌*◌, ◌/◌, ◌%◌, ◌^◌, ◌<<<◌, ◌>>>◌, bit_and, bit_or, u8, u64}
use v.Base.{wrapping_add, Bool, true, false, not, ◌&&◌, Option, none, some, ◌==◌, leb, ltb}
use v.Base.{if◌then◌else◌, ◌>>=◌, ◌>>◌, check, get_elem?, set?, one_at}
use v.Cpu.State.{CpuState, read_gpr, write_gpr}
use v.Interp.Memory.{GuestMem}
use v.Interp.MemAccess.{aborted, read, write}

abbrev pub not128 : ℕ → ℕ
not128 x = 2 ^ 128 - 1 - x

-- The loop of `set_elem` with `left` bytes to set, the next of them byte `at` of the element.
unfoldable pub set_bytes : ℕ → ℕ → ℕ → ℕ → ℕ → Option ℕ
set_bytes zero vreg byte_off at val = some vreg
set_bytes (suc left) vreg byte_off at val =
    let sh = (byte_off + at) * 8 in
    do
      check (ltb (byte_off + at) 16)
      set_bytes left (bit_or (bit_and vreg (not128 (0xff <<< sh))) (u8 (val >>> (at * 8)) <<< sh))
          byte_off (at + 1) val

unfoldable pub set_elem : CpuState → ℕ → ℕ → ℕ → ℕ → Option CpuState
unfolding set_bytes
set_elem cpu tt byte_off size val = do
  vreg ← get_elem? cpu.vregs tt
  vreg' ← set_bytes (1 <<< size) vreg byte_off 0 val
  vregs' ← set? cpu.vregs tt vreg'
  some (record cpu { vregs = vregs' })

unfoldable pub get_bytes : ℕ → ℕ → ℕ → ℕ → ℕ → Option ℕ
get_bytes zero vreg byte_off at r = some r
get_bytes (suc left) vreg byte_off at r = do
  check (ltb (byte_off + at) 16)
  get_bytes left vreg byte_off (at + 1)
      (bit_or r (u8 (vreg >>> ((byte_off + at) * 8)) <<< (at * 8)))

unfoldable pub get_elem : CpuState → ℕ → ℕ → ℕ → Option ℕ
unfolding get_bytes
get_elem cpu tt byte_off size = do
  vreg ← get_elem? cpu.vregs tt
  get_bytes (1 <<< size) vreg byte_off 0 0

-- The loop of `broadcast` from copy `i` on; sixteen copies are the most there are.
unfoldable pub copies : ℕ → ℕ → ℕ → ℕ → ℕ → ℕ → ℕ
copies zero bytes nbytes elem i val = val
copies (suc fuel) bytes nbytes elem i val =
    let rest = copies fuel bytes nbytes elem (i + 1) (bit_or val (elem <<< (i * bytes * 8))) in
    if ltb (i * bytes) nbytes then rest else val

unfoldable pub broadcast : ℕ → ℕ → Bool → ℕ
unfolding copies
broadcast val size q =
    let bytes = 1 <<< size in
    let mask = if leb 8 bytes then 2 ^ 64 - 1 else one_at (bytes * 8) - 1 in
    copies 16 bytes (if q then 16 else 8) (bit_and val mask) 0 0

-- The end of both loops.
unfoldable pub post_index : CpuState → Bool → ℕ → ℕ → ℕ → ℕ → Option CpuState
post_index cpu postidx rm rn start bytes =
    if postidx
    then (do
      inc ← if rm == 31 then some bytes else read_gpr cpu rm false
      write_gpr cpu rn true (wrapping_add start inc))
    else some cpu

-- The loop that zeroes the upper halves, from register `k` on.
unfoldable pub zero_upper : ℕ → CpuState → ℕ → ℕ → Option CpuState
zero_upper zero cpu rt k = some cpu
zero_upper (suc left) cpu rt k = do
  vreg ← get_elem? cpu.vregs ((rt + k) % 32)
  vregs' ← set? cpu.vregs ((rt + k) % 32) (bit_and vreg (2 ^ 64 - 1))
  zero_upper left (record cpu { vregs = vregs' }) rt (k + 1)

module _ (M : GuestMem) where
  open M use {Mem}

  -- What an element's access leaves: a fault, or the state for the next element.
  unfoldable pub load_into :
      CpuState → Mem → ℕ → ℕ → (ℕ → CpuState → Option CpuState) → Option (CpuState × Mem)
  load_into cpu mem addr size into = do
    (val, cpu', mem') ← read M cpu mem addr size
    if aborted cpu' then some (cpu', mem') else (do cpu″ ← into val cpu'; some (cpu″, mem'))

  unfoldable pub store_from : CpuState → Mem → ℕ → ℕ → ℕ → ℕ → Option (CpuState × Mem)
  store_from cpu mem addr size tt off = do
    val ← get_elem cpu tt off size
    write M cpu mem addr size val

  -- One element of `multi`: the `i`-th of all, so element `i / selem % elements` of repetition
  -- `i / selem / elements`, in register `i % selem` of the structure.
  unfoldable pub multi_element :
      CpuState → Mem → Bool → ℕ → ℕ → ℕ → ℕ → ℕ → ℕ → Option (CpuState × Mem)
  unfolding load_into store_from
  multi_element cpu mem is_load rt size elements selem addr i =
      let tt = (rt + i / selem / elements + i % selem) % 32 in
      let off = i / selem % elements * (1 <<< size) in
      if is_load
      then load_into cpu mem addr size (λ val c. set_elem c tt off size val)
      else store_from cpu mem addr size tt off

  -- The three nested loops as one, `left` elements to go.
  unfoldable pub multi_from :
      ℕ → CpuState → Mem → Bool → ℕ → ℕ → ℕ → ℕ → ℕ → ℕ → Option (CpuState × Mem)
  unfolding multi_element
  multi_from zero cpu mem is_load rt size elements selem addr i = some (cpu, mem)
  multi_from (suc left) cpu mem is_load rt size elements selem addr i = do
    (cpu', mem') ← multi_element cpu mem is_load rt size elements selem addr i
    if aborted cpu'
        then some (cpu', mem')
        else multi_from left cpu' mem' is_load rt size elements selem
            (wrapping_add addr (1 <<< size)) (i + 1)

  unfoldable pub multi :
      CpuState → Mem → Bool → Bool → Bool → ℕ → ℕ → ℕ → ℕ → ℕ → ℕ → Option (CpuState × Mem)
  multi cpu mem is_load q postidx rm rn rt size rpt selem =
      let elements = (if q then 16 else 8) / (1 <<< size) in
      do
        start ← read_gpr cpu rn true
        (cpu₁, mem₁) ←
            multi_from (rpt * elements * selem) cpu mem is_load rt size elements selem start 0
        if aborted cpu₁ then some (cpu₁, mem₁) else (do
          cpu₂ ← if is_load && not q then zero_upper (rpt * selem) cpu₁ rt 0 else some cpu₁
          cpu₃ ← post_index cpu₂ postidx rm rn start (rpt * elements * selem * (1 <<< size))
          some (cpu₃, mem₁))

  -- One element of `single`.
  unfoldable pub single_element :
      CpuState → Mem → Bool → Bool → ℕ → ℕ → ℕ → ℕ → Bool → Option (CpuState × Mem)
  unfolding load_into store_from broadcast
  single_element cpu mem is_load replicate tt size index addr q =
      let off = index * (1 <<< size) in
      if replicate
      then load_into cpu mem addr size (λ val c. do
        vregs' ← set? c.vregs tt (broadcast val size q)
        some (record c { vregs = vregs' }))
      else if is_load
      then load_into cpu mem addr size (λ val c. set_elem c tt off size val)
      else store_from cpu mem addr size tt off

  unfoldable pub single_from :
      ℕ → CpuState → Mem → Bool → Bool → ℕ → ℕ → ℕ → ℕ → Bool → Option (CpuState × Mem)
  unfolding single_element
  single_from zero cpu mem is_load replicate tt size index addr q = some (cpu, mem)
  single_from (suc left) cpu mem is_load replicate tt size index addr q = do
    (cpu', mem') ← single_element cpu mem is_load replicate tt size index addr q
    if aborted cpu'
        then some (cpu', mem')
        else single_from left cpu' mem' is_load replicate ((tt + 1) % 32) size index
            (wrapping_add addr (1 <<< size)) q

  unfoldable pub single :
      CpuState → Mem → Bool → Bool → Bool → ℕ → ℕ → ℕ → ℕ → ℕ → ℕ → Bool → Option (CpuState × Mem)
  single cpu mem is_load replicate postidx rm rn rt size selem index q = do
    start ← read_gpr cpu rn true
    (cpu₁, mem₁) ← single_from selem cpu mem is_load replicate rt size index start q
    if aborted cpu₁ then some (cpu₁, mem₁) else (do
      cpu₂ ← post_index cpu₁ postidx rm rn start (selem * (1 <<< size))
      some (cpu₂, mem₁))
