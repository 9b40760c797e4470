-- ===== src/Decoder/Ldst/Register.antt =====
-- crates/decoder/src/ldst/{uimm,unscaled,pre,post,reg}.rs: one register, by addressing mode.
use v.Base.{ℕ, ◌<<<◌, bit_and, Bool, true, false, ◌&&◌, Option, none, some, ◌==◌, ◌!=◌}
use v.Base.{if◌then◌else◌}
use v.Decoder.Insn.{Insn, AddrMode}
use v.Decoder.Fields.{field, sfield}

unfoldable pub is_prefetch : ℕ → ℕ → Bool
is_prefetch size opc = size == 3 && opc == 0b10

-- `(is_load, signed, dst64)`
unfoldable pub kind : ℕ → ℕ → Option (Bool × Bool × Bool)
kind size opc =
    if opc == 0b00
    then some (false, false, size == 3)
    else if opc == 0b01
    then some (true, false, size == 3)
    else if size == 3
    then none
    else if size == 2 && opc == 0b11
    then none
    else if opc == 0b10
    then some (true, true, true)
    else some (true, true, false)

-- `(is_load, log2_bytes)`
unfoldable pub vec_kind : ℕ → ℕ → Option (Bool × ℕ)
vec_kind size opc =
    let is_load = bit_and opc 1 == 1 in
    if bit_and opc 0b10 != 0
    then (if size == 0 then some (is_load, 4) else none)
    else some (is_load, size)

-- What the five classes share: the vector forms, the prefetch where the class has it, and the
-- integer forms; `addr` is the address for an access of a size.
unfoldable pub formed : ℕ → Bool → Bool → (ℕ → AddrMode) → Insn
unfolding is_prefetch kind vec_kind
formed word prefetches unpriv addr =
    let size = field word 30 2 in
    let opc = field word 22 2 in
    let rt = field word 0 5 in
    if field word 26 1 == 1
    then elim (vec_kind size opc) [
      | some (is_load, log2) ↦ Insn.load_store log2 is_load false false true unpriv rt (addr log2)
      | none ↦ Insn.unsupported word
    ]
    else if prefetches && is_prefetch size opc
    then Insn.prfm
    else elim (kind size opc) [
      | some (is_load, signed, dst64) ↦
          Insn.load_store size is_load signed dst64 false unpriv rt (addr size)
      | none ↦ Insn.unsupported word
    ]

unfoldable pub uimm : ℕ → Insn
unfolding formed
uimm word =
    formed word true false
      λ size. AddrMode.unsigned_imm (field word 5 5) (field word 10 12 <<< size)

unfoldable pub unscaled : ℕ → Bool → Insn
unfolding formed
unscaled word unpriv =
    formed word true unpriv λ size. AddrMode.unscaled (field word 5 5) (sfield word 12 9)

unfoldable pub pre : ℕ → Insn
unfolding formed
pre word = formed word false false λ size. AddrMode.pre_index (field word 5 5) (sfield word 12 9)

unfoldable pub post : ℕ → Insn
unfolding formed
post word = formed word false false λ size. AddrMode.post_index (field word 5 5) (sfield word 12 9)

-- An option without bit 1 is refused, but only after the prefetch and the size.
unfoldable pub reg : ℕ → Insn
unfolding is_prefetch kind vec_kind
reg word =
    let size = field word 30 2 in
    let opc = field word 22 2 in
    let rt = field word 0 5 in
    let option = field word 13 3 in
    let reserved = bit_and option 0b010 == 0 in
    let addr = λ (n : ℕ).
      AddrMode.reg_offset (field word 5 5) (field word 16 5) option
        (if field word 12 1 == 1 then n else 0) in
    if field word 26 1 == 1
    then elim (vec_kind size opc) [
      | some (is_load, log2) ↦
          if reserved
          then Insn.unsupported word
          else Insn.load_store log2 is_load false false true false rt (addr log2)
      | none ↦ Insn.unsupported word
    ]
    else if is_prefetch size opc
    then Insn.prfm
    else elim (kind size opc) [
      | some (is_load, signed, dst64) ↦
          if reserved
          then Insn.unsupported word
          else Insn.load_store size is_load signed dst64 false false rt (addr size)
      | none ↦ Insn.unsupported word
    ]
