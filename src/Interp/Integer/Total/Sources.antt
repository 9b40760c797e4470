-- ===== src/Interp/Integer/Total/Sources.antt =====
-- The conditional instructions, those with one to three sources, and the branches.
use v.Base.{ℕ, ◌<◌, ◌≡◌, ◌⊎◌, inl, inr, refl, Bool, true, false, ◌&&◌, leb, arith}
use v.Base.{Bool-cases, lt→ltb}
use v.Base.{Option, some, none, ◌==◌, if◌then◌else◌, ◌>>=◌, Option-cases, wrapping_add}
use v.Cpu.State.{CpuState}
use v.Cpu.State.Gpr.{HasRegs, read_gpr_total, write_gpr_total}
use v.Decoder.DpReg.{is_2src, is_3src}
use v.Interp.Alu.{eval_cond}
use v.Interp.Integer.{Succeeds, finish, finish-Succeeds}
use v.Interp.Integer.Register.{cond_compare, cond_select}
use v.Interp.Integer.Sources.{data_proc_1src, data_proc_2src, data_proc_3src}
use v.Interp.Integer.Branches.{branch_imm, branch_reg, compare_branch, test_branch}
use v.Interp.Integer.Total.{read-Succeeds}
use v.Interp.Alu.Operands.{read_total}

is_3src_cases :
    (op31 : ℕ) (sf o0 : Bool)
    → is_3src op31 sf o0 ≡ true
    → (op31 ≡ 0) ⊎ (op31 ≡ 1) ⊎ (op31 ≡ 5) ⊎ (op31 ≡ 2) ⊎ (op31 ≡ 6)
unfolding is_3src
is_3src_cases op31 sf o0 ok = elim (Bool-cases (op31 == 0)) [
  | inl e ↦ inl (ground arith)
  | inr a ↦ elim (Bool-cases (op31 == 1)) [
    | inl e ↦ inr (inl (ground arith))
    | inr b ↦ elim (Bool-cases (op31 == 5)) [
      | inl e ↦ inr (inr (inl (ground arith)))
      | inr c ↦ elim (Bool-cases (op31 == 2)) [
        | inl e ↦ inr (inr (inr (inl (ground arith))))
        | inr d ↦ inr (inr (inr (inr (ground arith))))
      ]
    ]
  ]
]

module _ {cpu : CpuState} (h : HasRegs cpu) where
  pub cond_compare_total :
      (sf sub is_imm : Bool) (imm_y rm cond nzcv rn : ℕ)
      → rm < 32
      → rn < 32
      → Succeeds (cond_compare cpu sf sub is_imm imm_y rm cond nzcv rn)
  unfolding cond_compare
  cond_compare_total sf sub is_imm imm_y rm cond nzcv rn m n =
      let (a, e) = read_total rn sf false h n in
      let (b, f) = read_total rm sf false h m in
      elim (Bool-cases (eval_cond cond cpu.flags)) [
        | inr fails ↦ rw fails (_, none, refl, record { count = h.count })
        | inl holds ↦ elim (Bool-cases is_imm) [
          | inl imm ↦ rw (holds, imm, e) (_, none, refl, record { count = h.count })
          | inr reg ↦ rw (holds, reg, e, f) (_, none, refl, record { count = h.count })
        ]
      ]

  pub cond_select_total :
      (sf op o2 : Bool) (cond rm rn rd : ℕ)
      → rm < 32
      → rn < 32
      → rd < 32
      → Succeeds (cond_select cpu sf op o2 cond rm rn rd)
  unfolding cond_select
  cond_select_total sf op o2 cond rm rn rd m n d =
      let (a, e) = read_total rn sf false h n in
      let (b, f) = read_total rm sf false h m in
      elim (Bool-cases (eval_cond cond cpu.flags)) [
        | inl taken ↦ rw (taken, e) (finish-Succeeds rd sf _ false h d)
        | inr other ↦ rw (other, f) (finish-Succeeds rd sf _ false h d)
      ]

  -- A chain that computes a result and writes it.
  write-Succeeds :
      (o : Option ℕ) (rd : ℕ) (sf : Bool)
      → ((r : ℕ) × (o ≡ some r))
      → rd < 32
      → Succeeds (o >>= λ r. finish cpu rd sf r false)
  write-Succeeds o rd sf (r, e) d = rw e (finish-Succeeds rd sf r false h d)

  pub data_proc_1src_total :
      (sf : Bool) (opcode rn rd : ℕ)
      → opcode < 6
      → rn < 32
      → rd < 32
      → Succeeds (data_proc_1src cpu sf opcode rn rd)
  unfolding data_proc_1src
  data_proc_1src_total sf opcode rn rd o n d =
      read-Succeeds h rn sf false _ n λ x. write-Succeeds _ rd sf (computed _ _ _ _ _ _) d
    where
      computed :
          (a b c e f g : ℕ)
          → (r : ℕ) × ((if opcode == 0
                then some a
                else if opcode == 1
                then some b
                else if opcode == 2
                then some c
                else if opcode == 3
                then some e
                else if opcode == 4
                then some f
                else if opcode == 5
                then some g
                else none)
              ≡ some r)
      computed a b c e f g =
          elim (Option-cases (
            if opcode == 0
            then some a
            else if opcode == 1
            then some b
            else if opcode == 2
            then some c
            else if opcode == 3
            then some e
            else if opcode == 4
            then some f
            else if opcode == 5
            then some g
            else none)) [ inl bad ↦ absurd (ground arith) | inr good ↦ good ]

  pub data_proc_2src_total :
      (sf : Bool) (opcode rm rn rd : ℕ)
      → is_2src opcode sf ≡ true
      → rm < 32
      → rn < 32
      → rd < 32
      → Succeeds (data_proc_2src cpu sf opcode rm rn rd)
  unfolding data_proc_2src is_2src
  data_proc_2src_total sf opcode rm rn rd ok m n d = read-Succeeds h rn sf false _ n λ a.
      read-Succeeds h rm sf false _ m λ b. elim (Bool-cases (leb 0x10 opcode && leb opcode 0x17)) [
        | inl summed ↦ rw summed (finish-Succeeds rd false _ false h d)
        | inr other ↦ rw other (write-Succeeds _ rd sf (computed other _ _ _ _ _ _) d)
      ]
    where
      computed :
          (leb 0x10 opcode && leb opcode 0x17) ≡ false
          → (a b c e f g : ℕ)
          → (r : ℕ) × ((if opcode == 2
                then some a
                else if opcode == 3
                then some b
                else if opcode == 8
                then some c
                else if opcode == 9
                then some e
                else if opcode == 10
                then some f
                else if opcode == 11
                then some g
                else none)
              ≡ some r)
      computed other a b c e f g =
          elim (Option-cases (
            if opcode == 2
            then some a
            else if opcode == 3
            then some b
            else if opcode == 8
            then some c
            else if opcode == 9
            then some e
            else if opcode == 10
            then some f
            else if opcode == 11
            then some g
            else none)) [ inl bad ↦ absurd (ground arith) | inr good ↦ good ]

  pub data_proc_3src_total :
      (sf : Bool) (op31 : ℕ) (o0 : Bool) (rm ra rn rd : ℕ)
      → is_3src op31 sf o0 ≡ true
      → rm < 32
      → ra < 32
      → rn < 32
      → rd < 32
      → Succeeds (data_proc_3src cpu sf op31 o0 rm ra rn rd)
  unfolding data_proc_3src
  data_proc_3src_total sf op31 o0 rm ra rn rd ok m a n d =
      let (n₁, en) = read_total rn sf false h n in
      let (m₁, em) = read_total rm sf false h m in
      let (a₁, ea) = read_total ra sf false h a in
      let (n₂, fn) = read_total rn false false h n in
      let (m₂, fm) = read_total rm false false h m in
      let (n₃, gn) = read_total rn true false h n in
      let (m₃, gm) = read_total rm true false h m in
      let (a₃, ga) = read_total ra true false h a in
      elim (is_3src_cases op31 sf o0 ok) [
        | inl e ↦ rw (e, en, em, ea) (finish-Succeeds rd sf _ false h d)
        | inr (inl e) ↦ rw (e, fn, fm, ga) (finish-Succeeds rd sf _ false h d)
        | inr (inr (inl e)) ↦ rw (e, fn, fm, ga) (finish-Succeeds rd sf _ false h d)
        | inr (inr (inr (inl e))) ↦ rw (e, gn, gm) (finish-Succeeds rd sf _ false h d)
        | inr (inr (inr (inr e))) ↦ rw (e, gn, gm) (finish-Succeeds rd sf _ false h d)
      ]

  branch_imm_total : (link : Bool) (offset pc : ℕ) → Succeeds (branch_imm cpu link offset pc)
  unfolding branch_imm
  branch_imm_total true offset pc =
      let (cpu', e, h') = write_gpr_total 30 false (wrapping_add pc 4) h (omega arith) in
      rw e (cpu', _, refl, h')
  branch_imm_total false offset pc = (cpu, _, refl, h)

  branch_reg_total : (opc rn pc : ℕ) → rn < 32 → Succeeds (branch_reg cpu opc rn pc)
  unfolding branch_reg
  branch_reg_total opc rn pc n =
      let (a, f) = read_gpr_total rn false h n in
      elim (Bool-cases (opc == 1)) [
        | inl link ↦
            let (cpu', e, h') = write_gpr_total 30 false (wrapping_add pc 4) h (omega arith) in
            rw (f, link, e) (cpu', _, refl, h')
        | inr plain ↦ rw (f, plain) (cpu, _, refl, h)
      ]

  compare_branch_total :
      (sf negate : Bool) (rt offset pc : ℕ)
      → rt < 32
      → Succeeds (compare_branch cpu sf negate rt offset pc)
  unfolding compare_branch
  compare_branch_total sf negate rt offset pc t =
      let (a, e) = read_total rt sf false h t in rw e (cpu, _, refl, h)

  test_branch_total :
      (bit : ℕ) (negate : Bool) (rt offset pc : ℕ)
      → bit < 64
      → rt < 32
      → Succeeds (test_branch cpu bit negate rt offset pc)
  unfolding test_branch
  test_branch_total bit negate rt offset pc b t =
      let (a, e) = read_gpr_total rt false h t in rw (e, lt→ltb bit 64 b) (cpu, _, refl, h)
