-- ===== src/Decoder/Ldst.antt =====
-- crates/decoder/src/ldst.rs and ldst/: the load/store classes.
pub mod Register
pub mod Excl
pub mod Structs
use v.Base.{ℕ, ◌*◌, ◌<<<◌, u64, Bool, true, false, not, ◌&&◌, ◌==◌, ◌!=◌, if◌then◌else◌}
use v.Decoder.Insn.{Insn, AddrMode, PairIndex}
use v.Decoder.Fields.{field, sfield}
use v.Decoder.Ldst.Register
use v.Decoder.Ldst.Excl
use v.Decoder.Ldst.Structs

-- `sfield(word, 5, 19) * 4` on i64
unfoldable pub literal : ℕ → Insn
literal word =
    let rt = field word 0 5 in
    let addr = AddrMode.literal (u64 (sfield word 5 19 * 4)) in
    let opc = field word 30 2 in
    if field word 26 1 == 1
    then (if opc == 0
        then Insn.load_store 2 true false false true false rt addr
        else if opc == 1
        then Insn.load_store 3 true false false true false rt addr
        else if opc == 2
        then Insn.load_store 4 true false false true false rt addr
        else Insn.unsupported word)
    else if opc == 0
    then Insn.load_store 2 true false false false false rt addr
    else if opc == 1
    then Insn.load_store 3 true false true false false rt addr
    else if opc == 2
    then Insn.load_store 2 true true true false false rt addr
    else Insn.prfm

-- The instruction once the index is known.
unfoldable pub pair_of : ℕ → PairIndex → Bool → Insn
pair_of word index nalloc =
    let is_load = field word 22 1 == 1 in
    let opc = field word 30 2 in
    let made = λ (signed width8 vec : Bool) (vesize : ℕ).
      Insn.load_store_pair is_load signed width8 vec vesize (field word 0 5) (field word 10 5)
        (field word 5 5) (u64 (sfield word 15 7 <<< vesize)) index in
    if field word 26 1 == 1
    then (if opc == 0
        then made false false true 2
        else if opc == 1
        then made false false true 3
        else if opc == 2
        then made false false true 4
        else Insn.unsupported word)
    else if opc == 0
    then made false false false 2
    else if opc == 2
    then made false true false 3
    else if opc == 1 && is_load && not nalloc
    then made true false false 2
    else Insn.unsupported word

unfoldable pub pair : ℕ → Insn
unfolding pair_of
pair word =
    let idx = field word 23 3 in
    if idx == 0
    then pair_of word PairIndex.offset true
    else if idx == 2
    then pair_of word PairIndex.offset false
    else if idx == 1
    then pair_of word PairIndex.post false
    else if idx == 3
    then pair_of word PairIndex.pre false
    else Insn.unsupported word

unfoldable pub register_form : ℕ → Insn
register_form word =
    let indexed = field word 21 1 == 1 in
    let form = field word 10 2 in
    if field word 24 2 == 1
    then Register.uimm word
    else if field word 24 2 == 0
    then (if indexed
        then (if form == 2
            then Register.reg word
            else if form == 0
            then Excl.atomic word
            else Insn.unsupported word)
        else if form == 0
        then Register.unscaled word false
        else if form == 1
        then Register.post word
        else if form == 3
        then Register.pre word
        else Register.unscaled word true)
    else Insn.unsupported word

unfoldable pub decode : ℕ → Insn
unfolding register_form literal pair
decode word =
    if field word 24 6 == 0b001000
    then Excl.decode word
    else if field word 26 4 == 0b0011 && field word 25 1 == 0
    then Structs.decode word
    else if field word 27 3 == 0b111
    then register_form word
    else if field word 27 3 == 0b011 && field word 24 2 == 0
    then literal word
    else if field word 27 3 == 0b101
    then pair word
    else Insn.unsupported word
