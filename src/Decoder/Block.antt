-- ===== src/Decoder/Block.antt =====
-- crates/decoder/src/block.rs: straight-line blocks. The decoder of a word is a parameter, the
-- rest of the crate's decoder being of no concern here.
pub mod Laws
use v.Base.{ℕ, zero, suc, ◌+◌, ◌-◌, ◌*◌, ◌%◌, ◌^◌, u64, wrapping_add, min, max, Bool, true, false}
use v.Base.{Option, none, some, List, [], ◌∷◌, ◌++◌, ◌==◌, if◌then◌else◌}
use v.Decoder.Insn.{Insn}

abbrev pub max_block : ℕ
max_block = 1024

pub record Block : Type 0 where
  pub start : ℕ
  pub insns : List (ℕ × Insn)

unfoldable pub is_terminator : Insn → Bool
is_terminator (Insn.branch_imm link offset) = true
is_terminator (Insn.cond_branch cond offset) = true
is_terminator (Insn.compare_branch sf negate rt offset) = true
is_terminator (Insn.test_branch bit negate rt offset) = true
is_terminator (Insn.branch_reg opc rn) = true
is_terminator (Insn.svc imm16) = true
is_terminator Insn.eret = true
is_terminator (Insn.unsupported word) = true
is_terminator _ = false

abbrev pub stops_at : Option ℕ → ℕ → Bool
stops_at none next = false
stops_at (some stop) next = next == stop

module _ (decode_at : ℕ → Insn) where
  -- The loop with room for `room` more instructions; it returns what it pushes.
  unfoldable pub form_from : ℕ → Option ℕ → ℕ → List (ℕ × Insn)
  form_from zero until pc = []
  form_from (suc room) until pc =
      let insn = decode_at pc in
      let next = wrapping_add pc 4 in
      let rest = form_from room until next in
      (pc, insn) ∷ (if is_terminator insn then [] else if stops_at until next then [] else rest)

  -- `max_len.clamp(1, MAX_BLOCK)`
  unfoldable pub form_block_bounded : ℕ → Option ℕ → ℕ → Block
  form_block_bounded start until max_len =
      let cap = min (max 1 max_len) max_block in
      record { start = start; insns = form_from cap until start }

  unfoldable pub form_block : ℕ → Block
  form_block start = form_block_bounded start none max_block
