-- ===== src/Interp/Simd/Lanes.antt =====
-- crates/interp/src/simd.rs, simd/copy.rs and simd/dup.rs: the lanes of a vector register and the
-- instructions that copy one. A shift by 128 or more panics.
use v.Base.{ℕ, zero, suc, ◌+◌, ◌-◌, ◌*◌, ◌/◌, ◌%◌, ◌^◌, ◌<<<◌, ◌>>>◌, bit_and, bit_or, u64, asr}
use v.Base.{Bool, false, Option, none, some, List, [], ◌∷◌, leb, ltb, if◌then◌else◌, ◌>>=◌, ◌>>◌}
use v.Base.{check, get_elem?, set?, one_at}
use v.Cpu.State.{CpuState, read_gpr}
use v.Interp.Integer.{Outcome}
use v.Interp.Ldst.{write_result}
use v.Interp.Simd.Struct.{not128}

abbrev pub u128 : ℕ → ℕ
u128 x = x % 2 ^ 128

abbrev pub total_bits : Bool → ℕ
total_bits q = if q then 128 else 64

-- The write of the result of a vector instruction.
unfoldable pub set_vreg : CpuState → ℕ → ℕ → Outcome
set_vreg cpu rd val = do vregs' ← set? cpu.vregs rd val; some (record cpu { vregs = vregs' }, none)

-- The lanes from lane `i` on, `left` of them.
unfoldable pub split_from : ℕ → ℕ → ℕ → ℕ → List ℕ
split_from zero val ebits i = []
split_from (suc left) val ebits i =
    let raw = u64 (val >>> (i * ebits)) in
    (if leb 64 ebits then raw else bit_and raw (one_at ebits - 1))
    ∷ split_from left val ebits (i + 1)

unfoldable pub split : ℕ → ℕ → Bool → List ℕ
unfolding split_from
split val size q = let ebits = 8 <<< size in split_from (total_bits q / ebits) val ebits 0

unfoldable pub join_from : List ℕ → ℕ → ℕ → ℕ → Option ℕ
join_from [] ebits i v = some v
join_from (l ∷ lanes) ebits i v =
    let masked = if leb 64 ebits then l else bit_and l (one_at ebits - 1) in
    do
      check (ltb (i * ebits) 128)
      join_from lanes ebits (i + 1) (bit_or v (u128 (masked <<< (i * ebits))))

unfoldable pub join : List ℕ → ℕ → Option ℕ
unfolding join_from
join lanes size = join_from lanes (8 <<< size) 0 0

abbrev pub elem_mask : ℕ → ℕ
elem_mask ebits = if leb 128 ebits then 2 ^ 128 - 1 else one_at ebits - 1

unfoldable pub get_lane : ℕ → ℕ → ℕ → Option ℕ
get_lane v index ebits = do
  check (ltb (index * ebits) 128)
  some (bit_and (v >>> (index * ebits)) (elem_mask ebits))

unfoldable pub set_lane : ℕ → ℕ → ℕ → ℕ → Option ℕ
set_lane v index ebits elem =
    let shift = index * ebits in
    do
      check (ltb shift 128)
      some (
          bit_or (bit_and v (not128 (u128 (elem_mask ebits <<< shift))))
            (u128 (bit_and elem (elem_mask ebits) <<< shift)))

-- The loop of both DUPs with `left` copies to go, the next of them into lane `i`.
unfoldable pub repeated : ℕ → ℕ → ℕ → ℕ → ℕ → ℕ
repeated zero elem ebits i v = v
repeated (suc left) elem ebits i v =
    repeated left elem ebits (i + 1) (bit_or v (u128 (elem <<< (i * ebits))))

unfoldable pub dup_general : CpuState → Bool → ℕ → ℕ → ℕ → Outcome
unfolding repeated set_vreg
dup_general cpu q size rn rd =
    let ebits = 8 <<< size in
    do
      src ← read_gpr cpu rn false
      set_vreg cpu rd (
          repeated (total_bits q / ebits)
            (if leb 64 ebits then src else bit_and src (one_at ebits - 1)) ebits 0 0)

unfoldable pub dup_element : CpuState → Bool → ℕ → ℕ → ℕ → ℕ → Outcome
unfolding get_lane repeated set_vreg
dup_element cpu q size index rn rd =
    let ebits = 8 <<< size in
    do
      vn ← get_elem? cpu.vregs rn
      elem ← get_lane vn index ebits
      set_vreg cpu rd (repeated (total_bits q / ebits) elem ebits 0 0)

unfoldable pub ins_general : CpuState → ℕ → ℕ → ℕ → ℕ → Outcome
unfolding set_lane set_vreg
ins_general cpu size index rn rd = do
  elem ← read_gpr cpu rn false
  vd ← get_elem? cpu.vregs rd
  v ← set_lane vd index (8 <<< size) elem
  set_vreg cpu rd v

unfoldable pub ins_element : CpuState → ℕ → ℕ → ℕ → ℕ → ℕ → Outcome
unfolding get_lane set_lane set_vreg
ins_element cpu size dst src rn rd =
    let ebits = 8 <<< size in
    do
      vn ← get_elem? cpu.vregs rn
      elem ← get_lane vn src ebits
      vd ← get_elem? cpu.vregs rd
      v ← set_lane vd dst ebits elem
      set_vreg cpu rd v

unfoldable pub mov_to_gpr : CpuState → Bool → Bool → ℕ → ℕ → ℕ → ℕ → Outcome
unfolding get_lane
mov_to_gpr cpu signed dst64 size index vn rd =
    let ebits = 8 <<< size in
    do
      v ← get_elem? cpu.vregs vn
      lane ← get_lane v index ebits
      val ←
          (if signed
            then (do
              check (leb ebits 64)
              some (asr 64 (u64 (u64 lane <<< (64 - ebits))) (64 - ebits)))
            else some (u64 lane))
      cpu' ← write_result cpu dst64 rd val
      some (cpu', none)
