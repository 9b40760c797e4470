-- ===== src/Decoder/Registers/Memory.antt =====
-- The decoder of loads and stores names registers below 32.
use v.Base.{ℕ, ◌*◌, ◌<<<◌, ◌>>>◌, bit_and, bit_or, refl, Bool, true, false, not, ◌&&◌}
use v.Base.{◌||◌, ◌==◌, ◌!=◌}
use v.Base.{[], ◌∷◌}
use v.Decoder.Insn.{Insn}
use v.Decoder.Fields.{field, rd-lt, rn-lt, ra-lt, rm-lt}
use v.Decoder.Registers.{named, Fits, Fits-if, Fits-unsupported, Fits-match, Fits-named}
use v.Base.{u64}
use v.Decoder.Insn.{AddrMode, PairIndex}
use v.Decoder.Fields.{sfield}
use v.Decoder.Registers.{AllBelow, address_registers}
use v.Decoder.Ldst
use v.Decoder.Ldst.Register
use v.Decoder.Ldst.Register.{vec_kind, kind, is_prefetch}
use v.Decoder.Ldst.Excl
use v.Decoder.Ldst.Structs
use v.Decoder.Ldst.Structs.{rpt_selem, element}

module _ (word : ℕ) where
  -- An address whose registers are below 32.
  abbrev Reaches : AddrMode → Type 0
  Reaches addr = AllBelow (address_registers addr)

  formed-Fits :
      (prefetches unpriv : Bool) (addr : ℕ → AddrMode)
      → ((size : ℕ) → Reaches (addr size))
      → Fits word (Register.formed word prefetches unpriv addr)
  unfolding Register.formed named
  formed-Fits prefetches unpriv addr h =
      let size = field word 30 2 in
      let opc = field word 22 2 in
      Fits-if word (field word 26 1 == 1) _ _
        (Fits-match word (vec_kind size opc) _ λ r e. Fits-named word _ refl (rd-lt word, h r.1))
        (Fits-if word (prefetches && is_prefetch size opc) _ _ (Fits-named word _ refl tt)
          (Fits-match word (kind size opc) _ λ r e. Fits-named word _ refl (rd-lt word, h size)))

  uimm-Fits : Fits word (Register.uimm word)
  unfolding Register.uimm
  uimm-Fits = formed-Fits true false _ λ size. (rn-lt word, tt)

  pre-Fits : Fits word (Register.pre word)
  unfolding Register.pre
  pre-Fits = formed-Fits false false _ λ size. (rn-lt word, tt)

  post-Fits : Fits word (Register.post word)
  unfolding Register.post
  post-Fits = formed-Fits false false _ λ size. (rn-lt word, tt)

  unscaled-Fits : (unpriv : Bool) → Fits word (Register.unscaled word unpriv)
  unfolding Register.unscaled
  unscaled-Fits unpriv = formed-Fits true unpriv _ λ size. (rn-lt word, tt)

  reg-Fits : Fits word (Register.reg word)
  unfolding Register.reg named
  reg-Fits =
      let size = field word 30 2 in
      let opc = field word 22 2 in
      let reserved = bit_and (field word 13 3) 0b010 == 0 in
      let below : AllBelow (field word 0 5 ∷ field word 5 5 ∷ field word 16 5 ∷ []) =
        (rd-lt word, (rn-lt word, (rm-lt word, tt))) in
      Fits-if word (field word 26 1 == 1) _ _
        (Fits-match word (vec_kind size opc) _
          λ r e. Fits-if word reserved _ _ (Fits-unsupported word) (Fits-named word _ refl below))
        (Fits-if word (is_prefetch size opc) _ _ (Fits-named word _ refl tt) (
          Fits-match word (kind size opc) _ λ r e.
            Fits-if word reserved _ _ (Fits-unsupported word) (Fits-named word _ refl below)))

  ordered-Fits : (is_load : Bool) → Fits word (Excl.ordered word is_load)
  unfolding Excl.ordered named
  ordered-Fits is_load = Fits-named word _ refl (rd-lt word, (rn-lt word, tt))

  rmw-Fits :
      (op : ℕ)
      → Fits word
          (Insn.atomic_rmw (field word 30 2) op (field word 16 5) (field word 5 5) (field word 0 5))
  unfolding named
  rmw-Fits op = Fits-named word _ refl (rm-lt word, (rn-lt word, (rd-lt word, tt)))

  exclusive-Fits : Fits word (Excl.decode word)
  unfolding Excl.decode named
  exclusive-Fits =
      let o2 = field word 23 1 in
      let l = field word 22 1 in
      let o1 = field word 21 1 in
      let o0 = field word 15 1 in
      let rs = field word 16 5 in
      let rt2 = field word 10 5 in
      let size = field word 30 2 in
      let rt = field word 0 5 in
      let rn = field word 5 5 in
      Fits-if word (o2 == 1 && o1 == 1 && rt2 == 0b11111) _ _
        (Fits-named word _ refl (rm-lt word, (rn-lt word, (rd-lt word, tt))))
        (Fits-if word (o2 == 0 && o1 == 1 && rt2 == 0b11111) _ _
          (Fits-named word _ refl (rm-lt word, (rn-lt word, (rd-lt word, tt))))
          (Fits-if word (o2 == 1 && o1 == 0 && o0 == 1 && rs == 0b11111 && rt2 == 0b11111) _ _
            (ordered-Fits (l == 1))
            (Fits-if word (o2 == 0 && o1 == 0 && rt2 == 0b11111) _ _
              (Fits-if word (l == 1) _ _ (Fits-named word _ refl (rd-lt word, (rn-lt word, tt)))
                (Fits-named word _ refl (rm-lt word, (rd-lt word, (rn-lt word, tt)))))
              (Fits-if word (o2 == 0 && o1 == 1) _ _
                (Fits-if word (l == 1) _ _
                  (Fits-named word _ refl (rd-lt word, (ra-lt word, (rn-lt word, tt))))
                  (Fits-named word _ refl
                    (rm-lt word, (rd-lt word, (ra-lt word, (rn-lt word, tt))))))
                (Fits-unsupported word)))))

  atomic-Fits : Fits word (Excl.atomic word)
  unfolding Excl.atomic named
  atomic-Fits =
      let o3 = field word 15 1 in
      let opc = field word 12 3 in
      let rmw = λ (op : ℕ).
        Insn.atomic_rmw (field word 30 2) op (field word 16 5) (field word 5 5) (field word 0 5) in
      Fits-if word
        (o3 == 1
          && opc == 0b100
          && field word 23 1 == 1
          && field word 22 1 == 0
          && field word 16 5 == 0b11111)
        _ _ (ordered-Fits true)
        (Fits-if word (o3 == 0) _ _ (rmw-Fits opc)
          (Fits-if word (opc == 0) _ _ (rmw-Fits 8) (Fits-unsupported word)))

  multiple-Fits : Fits word (Structs.multiple word)
  unfolding Structs.multiple named
  multiple-Fits =
      let postidx = field word 23 1 == 1 in
      let size = field word 10 2 in
      let q = field word 30 1 == 1 in
      Fits-if word (field word 31 1 == 1 || field word 21 1 == 1) _ _ (Fits-unsupported word) (
        Fits-if word (not postidx && field word 16 5 != 0) _ _ (Fits-unsupported word) (
          Fits-match word (rpt_selem (field word 12 4)) _ λ r e.
            Fits-if word (size == 3 && not q && r.1 != 1) _ _ (Fits-unsupported word)
              (Fits-named word _ refl (rm-lt word, (rn-lt word, (rd-lt word, tt))))))

  single-Fits : Fits word (Structs.single word)
  unfolding Structs.single named
  single-Fits =
      let postidx = field word 23 1 == 1 in
      Fits-if word (field word 31 1 == 1) _ _ (Fits-unsupported word) (
        Fits-if word (not postidx && field word 16 5 != 0) _ _ (Fits-unsupported word) (
          Fits-match word
            (element (field word 13 3 >>> 1) (field word 10 2) (field word 12 1)
              (bit_or (bit_or (field word 30 1 <<< 3) (field word 12 1 <<< 2)) (field word 10 2))
              (field word 22 1 == 1))
            _ λ r e. Fits-named word _ refl (rm-lt word, (rn-lt word, (rd-lt word, tt)))))

  structs-Fits : Fits word (Structs.decode word)
  unfolding Structs.decode
  structs-Fits = Fits-if word (field word 24 1 == 0) _ _ multiple-Fits single-Fits

  literal-Fits : Fits word (Ldst.literal word)
  unfolding Ldst.literal named
  literal-Fits =
      let rt = field word 0 5 in
      let addr = AddrMode.literal (u64 (sfield word 5 19 * 4)) in
      let opc = field word 30 2 in
      Fits-if word (field word 26 1 == 1) _ _
        (Fits-if word (opc == 0) _ _ (Fits-named word _ refl (rd-lt word, tt)) (
          Fits-if word (opc == 1) _ _ (Fits-named word _ refl (rd-lt word, tt)) (
            Fits-if word (opc == 2) _ _ (Fits-named word _ refl (rd-lt word, tt))
              (Fits-unsupported word))))
        (Fits-if word (opc == 0) _ _ (Fits-named word _ refl (rd-lt word, tt)) (
          Fits-if word (opc == 1) _ _ (Fits-named word _ refl (rd-lt word, tt)) (
            Fits-if word (opc == 2) _ _ (Fits-named word _ refl (rd-lt word, tt))
              (Fits-named word _ refl tt))))

  pair_of-Fits : (index : PairIndex) (nalloc : Bool) → Fits word (Ldst.pair_of word index nalloc)
  unfolding Ldst.pair_of named
  pair_of-Fits index nalloc =
      let is_load = field word 22 1 == 1 in
      let opc = field word 30 2 in
      let below : AllBelow (field word 0 5 ∷ field word 10 5 ∷ field word 5 5 ∷ []) =
        (rd-lt word, (ra-lt word, (rn-lt word, tt))) in
      Fits-if word (field word 26 1 == 1) _ _
        (Fits-if word (opc == 0) _ _ (Fits-named word _ refl below) (
          Fits-if word (opc == 1) _ _ (Fits-named word _ refl below)
            (Fits-if word (opc == 2) _ _ (Fits-named word _ refl below) (Fits-unsupported word))))
        (Fits-if word (opc == 0) _ _ (Fits-named word _ refl below) (
          Fits-if word (opc == 2) _ _ (Fits-named word _ refl below) (
            Fits-if word (opc == 1 && is_load && not nalloc) _ _ (Fits-named word _ refl below)
              (Fits-unsupported word))))

  pair-Fits : Fits word (Ldst.pair word)
  unfolding Ldst.pair named
  pair-Fits =
      let idx = field word 23 3 in
      Fits-if word (idx == 0) _ _ (pair_of-Fits PairIndex.offset true) (
        Fits-if word (idx == 2) _ _ (pair_of-Fits PairIndex.offset false) (
          Fits-if word (idx == 1) _ _ (pair_of-Fits PairIndex.post false) (
            Fits-if word (idx == 3) _ _ (pair_of-Fits PairIndex.pre false)
              (Fits-unsupported word))))

  register_form-Fits : Fits word (Ldst.register_form word)
  unfolding Ldst.register_form named
  register_form-Fits =
      let indexed = field word 21 1 == 1 in
      let form = field word 10 2 in
      Fits-if word (field word 24 2 == 1) _ _ (uimm-Fits) (
        Fits-if word (field word 24 2 == 0) _ _
          (Fits-if word (indexed) _ _
            (Fits-if word (form == 2) _ _ (reg-Fits)
              (Fits-if word (form == 0) _ _ (atomic-Fits) (Fits-unsupported word)))
            (Fits-if word (form == 0) _ _ (unscaled-Fits false) (
              Fits-if word (form == 1) _ _ (post-Fits)
                (Fits-if word (form == 3) _ _ (pre-Fits) (unscaled-Fits true)))))
          (Fits-unsupported word))

  pub decode-Fits : Fits word (Ldst.decode word)
  unfolding Ldst.decode named
  decode-Fits = Fits-if word (field word 24 6 == 0b001000) _ _ (exclusive-Fits) (
      Fits-if word (field word 26 4 == 0b0011 && field word 25 1 == 0) _ _ (structs-Fits) (
        Fits-if word (field word 27 3 == 0b111) _ _ (register_form-Fits) (
          Fits-if word (field word 27 3 == 0b011 && field word 24 2 == 0) _ _ (literal-Fits)
            (Fits-if word (field word 27 3 == 0b101) _ _ (pair-Fits) (Fits-unsupported word)))))
