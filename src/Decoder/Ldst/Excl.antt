-- ===== src/Decoder/Ldst/Excl.antt =====
-- crates/decoder/src/ldst/{excl,atomic}.rs: the ordered, exclusive and atomic accesses.
use v.Base.{ℕ, Bool, true, false, ◌&&◌, ◌==◌, if◌then◌else◌}
use v.Decoder.Insn.{Insn, AddrMode}
use v.Decoder.Fields.{field}

-- A plain load or store of the base register's address.
unfoldable pub ordered : ℕ → Bool → Insn
ordered word is_load =
    let size = field word 30 2 in
    Insn.load_store size is_load false (size == 3) false false (field word 0 5)
      (AddrMode.unsigned_imm (field word 5 5) 0)

unfoldable pub decode : ℕ → Insn
unfolding ordered
decode word =
    let o2 = field word 23 1 in
    let l = field word 22 1 in
    let o1 = field word 21 1 in
    let o0 = field word 15 1 in
    let rs = field word 16 5 in
    let rt2 = field word 10 5 in
    let size = field word 30 2 in
    let rt = field word 0 5 in
    let rn = field word 5 5 in
    if o2 == 1 && o1 == 1 && rt2 == 0b11111
    then Insn.compare_swap size rs rn rt
    else if o2 == 0 && o1 == 1 && rt2 == 0b11111
    then Insn.compare_swap_pair (field word 30 1) rs rn rt
    else if o2 == 1 && o1 == 0 && o0 == 1 && rs == 0b11111 && rt2 == 0b11111
    then ordered word (l == 1)
    else if o2 == 0 && o1 == 0 && rt2 == 0b11111
    then (if l == 1 then Insn.load_exclusive size rt rn else Insn.store_exclusive size rs rt rn)
    else if o2 == 0 && o1 == 1
    then (if l == 1
        then Insn.load_exclusive_pair size rt rt2 rn
        else Insn.store_exclusive_pair size rs rt rt2 rn)
    else Insn.unsupported word

unfoldable pub atomic : ℕ → Insn
unfolding ordered
atomic word =
    let o3 = field word 15 1 in
    let opc = field word 12 3 in
    let rmw = λ (op : ℕ).
      Insn.atomic_rmw (field word 30 2) op (field word 16 5) (field word 5 5) (field word 0 5) in
    if o3 == 1
      && opc == 0b100
      && field word 23 1 == 1
      && field word 22 1 == 0
      && field word 16 5 == 0b11111
    then ordered word true
    else if o3 == 0
    then rmw opc
    else if opc == 0
    then rmw 8
    else Insn.unsupported word
