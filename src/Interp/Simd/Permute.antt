-- ===== src/Interp/Simd/Permute.antt =====
-- crates/interp/src/simd/permute.rs, simd/ext.rs and simd/tbl.rs: the instructions that rearrange
-- the elements of vector registers.
pub mod Inverse
use v.Base.{ℕ, zero, suc, ◌+◌, ◌-◌, ◌*◌, ◌/◌, ◌%◌, ◌<<<◌, ◌>>>◌, bit_or, u8, Bool}
use v.Base.{Option, none, some, List, [], ◌∷◌, ◌==◌, leb, ltb, if◌then◌else◌, ◌>>=◌, ◌>>◌, check}
use v.Base.{get_elem?, set?, length, replicate}
use v.Cpu.State.{CpuState}
use v.Interp.Integer.{Outcome}
use v.Interp.Simd.Lanes.{split, join, set_vreg}

-- A loop that sets every `r[i]`, from `i` on.
unfoldable pub collected : (ℕ → Option ℕ) → ℕ → ℕ → Option (List ℕ)
collected f zero i = some []
collected f (suc left) i = do r ← f i; rest ← collected f left (i + 1); some (r ∷ rest)

-- The loops of TRN1 and TRN2, from pair `k` on; `odd` is 1 for TRN2.
unfoldable pub trn_from : ℕ → List ℕ → List ℕ → ℕ → ℕ → List ℕ → Option (List ℕ)
trn_from zero a b odd k r = some r
trn_from (suc left) a b odd k r = do
  x ← get_elem? a (2 * k + odd)
  r₁ ← set? r (2 * k) x
  y ← get_elem? b (2 * k + odd)
  r₂ ← set? r₁ (2 * k + 1) y
  trn_from left a b odd (k + 1) r₂

-- The `match opcode`
unfoldable pub arranged : ℕ → List ℕ → List ℕ → Option (List ℕ)
unfolding collected trn_from
arranged opcode a b =
    let n = length a in
    let half = n / 2 in
    if opcode == 0b011
    then collected (λ i. if i % 2 == 0 then get_elem? a (i / 2) else get_elem? b (i / 2)) n 0
    else if opcode == 0b111
    then collected
        (λ i. if i % 2 == 0 then get_elem? a (half + i / 2) else get_elem? b (half + i / 2)) n 0
    else if opcode == 0b001
    then collected (λ i. if ltb i half then get_elem? a (2 * i) else get_elem? b (2 * (i - half))) n
        0
    else if opcode == 0b101
    then collected
        (λ i. if ltb i half then get_elem? a (2 * i + 1) else get_elem? b (2 * (i - half) + 1)) n 0
    else if opcode == 0b010
    then trn_from half a b 0 0 (replicate n 0)
    else trn_from half a b 1 0 (replicate n 0)

unfoldable pub permute : CpuState → Bool → ℕ → ℕ → ℕ → ℕ → ℕ → Outcome
unfolding arranged
permute cpu q size opcode rm rn rd = do
  vn ← get_elem? cpu.vregs rn
  vm ← get_elem? cpu.vregs rm
  r ← arranged opcode (split vn size q) (split vm size q)
  v ← join r size
  set_vreg cpu rd v

-- `to_le_bytes()[i]`
abbrev pub byte_of : ℕ → ℕ → ℕ
byte_of v i = u8 (v >>> (8 * i))

-- The 32 bytes of `cat` in EXT.
unfoldable pub cat : ℕ → ℕ → ℕ → ℕ → ℕ
cat vn vm nbytes j =
    if ltb j nbytes then byte_of vn j else if ltb j (2 * nbytes) then byte_of vm (j - nbytes) else 0

-- `from_le_bytes` of an array whose byte `i` is `f i` for `left` bytes from `i` on.
unfoldable pub from_bytes : (ℕ → ℕ) → ℕ → ℕ → ℕ → ℕ
from_bytes f zero i v = v
from_bytes f (suc left) i v = from_bytes f left (i + 1) (bit_or v (f i <<< (8 * i)))

unfoldable pub ext : CpuState → Bool → ℕ → ℕ → ℕ → ℕ → Outcome
unfolding cat from_bytes
ext cpu q imm4 rm rn rd =
    let nbytes = if q then 16 else 8 in
    do
      vn ← get_elem? cpu.vregs rn
      vm ← get_elem? cpu.vregs rm
      check (leb (imm4 + nbytes) 32)
      set_vreg cpu rd (from_bytes (λ i. cat vn vm nbytes (imm4 + i)) nbytes 0 0)

-- One byte of TBL or TBX.
unfoldable pub looked_up : CpuState → Bool → ℕ → ℕ → ℕ → ℕ → Option ℕ
looked_up cpu is_tbx table_bytes rn sel kept =
    if ltb sel table_bytes
    then (do v ← get_elem? cpu.vregs ((rn + sel / 16) % 32); some (byte_of v (sel % 16)))
    else if is_tbx
    then some kept
    else some 0

-- The loop with `left` bytes to look up, the next of them byte `i`.
unfoldable pub table_from : ℕ → CpuState → Bool → ℕ → ℕ → ℕ → ℕ → ℕ → ℕ → Option ℕ
unfolding looked_up
table_from zero cpu is_tbx table_bytes rn idx old i out = some out
table_from (suc left) cpu is_tbx table_bytes rn idx old i out = do
  byte ← looked_up cpu is_tbx table_bytes rn (byte_of idx i) (byte_of old i)
  table_from left cpu is_tbx table_bytes rn idx old (i + 1) (bit_or out (byte <<< (8 * i)))

unfoldable pub table_lookup : CpuState → Bool → Bool → ℕ → ℕ → ℕ → ℕ → Outcome
unfolding table_from
table_lookup cpu q is_tbx len rm rn rd = do
  idx ← get_elem? cpu.vregs rm
  old ← get_elem? cpu.vregs rd
  out ← table_from (if q then 16 else 8) cpu is_tbx ((len + 1) * 16) rn idx old 0 0
  set_vreg cpu rd out
