-- ===== src/Decoder/Ldst/Structs.antt =====
-- crates/decoder/src/ldst/structs.rs: the vector structures.
use v.Base.{ℕ, ◌+◌, ◌<<<◌, ◌>>>◌, bit_and, bit_or, Bool, true, false, not, ◌&&◌, ◌||◌}
use v.Base.{Option, none, some, ◌==◌, ◌!=◌, if◌then◌else◌}
use v.Decoder.Insn.{Insn}
use v.Decoder.Fields.{field}

-- The registers a structure repeats over and the elements of one structure.
unfoldable pub rpt_selem : ℕ → Option (ℕ × ℕ)
rpt_selem opcode =
    if opcode == 0x0
    then some (1, 4)
    else if opcode == 0x2
    then some (4, 1)
    else if opcode == 0x4
    then some (1, 3)
    else if opcode == 0x6
    then some (3, 1)
    else if opcode == 0x7
    then some (1, 1)
    else if opcode == 0x8
    then some (1, 2)
    else if opcode == 0xa
    then some (2, 1)
    else none

unfoldable pub multiple : ℕ → Insn
unfolding rpt_selem
multiple word =
    let postidx = field word 23 1 == 1 in
    let rm = field word 16 5 in
    let size = field word 10 2 in
    let q = field word 30 1 == 1 in
    if field word 31 1 == 1 || field word 21 1 == 1
    then Insn.unsupported word
    else if not postidx && rm != 0
    then Insn.unsupported word
    else elim (rpt_selem (field word 12 4)) [
      | none ↦ Insn.unsupported word
      | some (rpt, selem) ↦
          if size == 3 && not q && selem != 1
          then Insn.unsupported word
          else Insn.simd_ld_st_multi (field word 22 1 == 1) q postidx rm (field word 5 5)
              (field word 0 5) size rpt selem
    ]

-- The `match scale`: the element size, whether it is replicated, and the index.
unfoldable pub element : ℕ → ℕ → ℕ → ℕ → Bool → Option (ℕ × Bool × ℕ)
element scale size s_bit index is_load =
    if scale == 3
    then (if not is_load || s_bit == 1 then none else some (size, true, index))
    else if scale == 0
    then some (0, false, index)
    else if scale == 1
    then (if bit_and size 1 == 1 then none else some (1, false, index >>> 1))
    else if bit_and size 2 != 0
    then none
    else if bit_and size 1 == 0
    then some (2, false, index >>> 2)
    else if s_bit == 1
    then none
    else some (3, false, index >>> 3)

unfoldable pub single : ℕ → Insn
unfolding element
single word =
    let postidx = field word 23 1 == 1 in
    let rm = field word 16 5 in
    let size = field word 10 2 in
    let s_bit = field word 12 1 in
    let opc = field word 13 3 in
    let is_load = field word 22 1 == 1 in
    let selem = bit_or (bit_and opc 1 <<< 1) (field word 21 1) + 1 in
    let index = bit_or (bit_or (field word 30 1 <<< 3) (s_bit <<< 2)) size in
    if field word 31 1 == 1
    then Insn.unsupported word
    else if not postidx && rm != 0
    then Insn.unsupported word
    else elim (element (opc >>> 1) size s_bit index is_load) [
      | none ↦ Insn.unsupported word
      | some (scale, replicate, lane) ↦
          Insn.simd_ld_st_single is_load replicate postidx rm (field word 5 5) (field word 0 5)
            scale selem lane (field word 30 1 == 1)
    ]

unfoldable pub decode : ℕ → Insn
unfolding multiple single
decode word = if field word 24 1 == 0 then multiple word else single word
