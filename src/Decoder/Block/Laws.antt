-- ===== src/Decoder/Block/Laws.antt =====
-- What a block is: a run of consecutive words that ends where the code may leave it.
use v.Base.{ℕ, zero, suc, ◌+◌, ◌*◌, ◌^◌, ◌≤◌, ◌<◌, ◌≡◌, refl, u64, wrapping_add, min, max, Bool}
use v.Base.{true, false, ◌||◌, arith}
use v.Base.{Option, some, List, [], ◌∷◌, length, get_elem?, Bool-cases, ◌-◌, ap, sym, ◌∙◌, inl}
use v.Base.{inr}
use mathlib.Core.Path.{subst}
use v.Decoder.Insn.{Insn}
use v.Decoder.Block.{max_block, is_terminator, stops_at, form_from, form_block_bounded}

module _ (decode_at : ℕ → Insn) (until : Option ℕ) where
  -- The address of the k-th word.
  abbrev pub address : ℕ → ℕ → ℕ
  address pc k = u64 (pc + 4 * k)

  -- The block may be left after the word at an address.
  abbrev pub leaves : ℕ → Bool
  leaves pc = is_terminator (decode_at pc) || stops_at until (wrapping_add pc 4)

  pub record IsStraight (cap pc : ℕ) (insns : List (ℕ × Insn)) : Type 0 where
    pub count : (1 ≤ length insns) × (length insns ≤ cap)
    pub words :
        (k : ℕ)
        → k < length insns
        → get_elem? insns k ≡ some (address pc k, decode_at (address pc k))
    pub straight : (k : ℕ) → k + 1 < length insns → leaves (address pc k) ≡ false
    pub ends : (k : ℕ) → k + 1 ≡ length insns → k + 1 < cap → leaves (address pc k) ≡ true

  address_zero : (pc : ℕ) → pc < 2 ^ 64 → address pc 0 ≡ pc
  address_zero pc lt = omega arith

  address_next : (pc k : ℕ) → address (wrapping_add pc 4) k ≡ address pc (suc k)
  address_next pc k = omega arith

  IsStraight-last :
      (room pc : ℕ)
      → pc < 2 ^ 64
      → (1 < suc room → leaves pc ≡ true)
      → IsStraight (suc room) pc ((pc, decode_at pc) ∷ [])
  IsStraight-last room pc lt left = record {
    count = (omega arith, omega arith);
    words = elim [
      | zero ↦ λ l. ap (λ a. some (a, decode_at a)) (sym (address_zero pc lt))
      | suc k ↦ λ l. absurd (omega arith)
    ];
    straight = λ k l. absurd (omega arith);
    ends = elim [
      | zero ↦ λ e l. rw (address_zero pc lt) (left (omega arith))
      | suc k ↦ λ e l. absurd (omega arith)
    ];
  }

  IsStraight-cons :
      (room pc : ℕ) (rest : List (ℕ × Insn))
      → pc < 2 ^ 64
      → leaves pc ≡ false
      → IsStraight (suc room) (wrapping_add pc 4) rest
      → IsStraight (suc (suc room)) pc ((pc, decode_at pc) ∷ rest)
  IsStraight-cons room pc rest lt stays h = record {
    count = (omega (arith, h.count), omega (arith, h.count));
    words = elim [
      | zero ↦ λ l. ap (λ a. some (a, decode_at a)) (sym (address_zero pc lt))
      | suc k ↦ λ l. h.words k (omega arith) ∙ ap (λ a. some (a, decode_at a)) (address_next pc k)
    ];
    straight = elim [
      | zero ↦ λ l. rw (address_zero pc lt) stays
      | suc k ↦ λ l. rw (← address_next pc k) (h.straight k (omega arith))
    ];
    ends = elim [
      | zero ↦ λ e l. absurd (omega (arith, h.count))
      | suc k ↦ λ e l. rw (← address_next pc k) (h.ends k (omega arith) (omega arith))
    ];
  }

  -- The list that an iteration adds.
  step_off :
      (room pc : ℕ)
      → leaves pc ≡ true
      → form_from decode_at (suc room) until pc ≡ (pc, decode_at pc) ∷ []
  unfolding form_from
  step_off room pc e = ground arith

  step_on :
      (room pc : ℕ)
      → leaves pc ≡ false
      → form_from decode_at (suc room) until pc
        ≡ (pc, decode_at pc) ∷ form_from decode_at room until (wrapping_add pc 4)
  unfolding form_from
  step_on room pc e = ground arith

  form_from-zero : (pc : ℕ) → form_from decode_at zero until pc ≡ []
  unfolding form_from
  form_from-zero pc = refl

  form_from-IsStraight :
      (room pc : ℕ)
      → pc < 2 ^ 64
      → IsStraight (suc room) pc (form_from decode_at (suc room) until pc)
  form_from-IsStraight zero pc lt = elim (Bool-cases (leaves pc)) [
    | inl left ↦ rw (step_off zero pc left) (IsStraight-last zero pc lt (λ l. absurd (omega arith)))
    | inr stays ↦
        rw (step_on zero pc stays, form_from-zero (wrapping_add pc 4))
          (IsStraight-last zero pc lt (λ l. absurd (omega arith)))
  ]
  form_from-IsStraight (suc room) pc lt = elim (Bool-cases (leaves pc)) [
    | inl left ↦ rw (step_off (suc room) pc left) (IsStraight-last (suc room) pc lt (λ _. left))
    | inr stays ↦ rw (step_on (suc room) pc stays) (
        IsStraight-cons room pc _ lt stays
          (form_from-IsStraight room (wrapping_add pc 4) (omega arith)))
  ]

  -- From a start below 2 ^ 64, a block is one to `cap` consecutive words from its start on, where
  -- `cap` is the requested length kept between 1 and the limit of 1024; no word but the last is a
  -- terminator or is followed by the stop address, and a block shorter than `cap` ends in one that
  -- is.
  pub form_block_bounded-IsStraight :
      (start max_len : ℕ)
      → start < 2 ^ 64
      → IsStraight
          (min (max 1 max_len) max_block)
          start
          (form_block_bounded decode_at start until max_len).insns
  unfolding form_block_bounded
  form_block_bounded-IsStraight start max_len lt =
      let cap = min (max 1 max_len) max_block in
      let room : suc (cap - 1) ≡ cap = ground arith in
      subst (λ n. IsStraight n start (form_from decode_at n until start)) room
        (form_from-IsStraight (cap - 1) start lt)
