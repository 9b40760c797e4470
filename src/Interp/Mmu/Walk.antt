-- ===== src/Interp/Mmu/Walk.antt =====
-- What a walk returns: a leaf of a level that fits the cache's byte, from a memory that reading
-- does not change; and a walk from a legal region size does not panic.
use v.Base.{ℕ, zero, suc, ◌+◌, ◌-◌, ◌*◌, ◌/◌, ◌^◌, ◌≤◌, ◌<◌, ◌≡◌, ◌≢◌, refl, ◌∙◌, true, arith}
use v.Base.{bit_and, u8, ◌>>>◌, Option, some, Result, ok, err, leb, bind-eq-some, check-eq-some}
use v.Base.{Option-cases}
use v.Base.{inl, inr}
use mathlib.Core.Path.{subst}
use v.Interp.Memory.{GuestMem}
use v.Interp.Mmu.{Leaf, TablePerms, Descent, fault, leaf, table, after, round, make_leaf, descend}
use v.Interp.Mmu.{walk_from, walk, starting_level, no_table_perms}
use v.Interp.Mmu.Pages.{walk_from_page}

abbrev pub IsLegal : ℕ → Type 0
IsLegal tsz = (16 ≤ tsz) × (tsz ≤ 51)

-- For a region size from 16 to 51 the starting level exists, is at most 3, and the levels from it
-- on resolve every bit of the region and no whole level more.
starting_level_lem :
    (tsz : ℕ)
    → IsLegal tsz
    → (level : ℕ) × (starting_level tsz ≡ some level)
      × (level ≤ 3)
      × (64 - tsz ≤ 12 + 9 * (4 - level))
      × (12 + 9 * (3 - level) < 64 - tsz)
unfolding starting_level
starting_level_lem tsz h =
    (4 - (64 - tsz - 12 + 8) / 9, ground arith, ground arith, ground arith, ground arith)

starting_level_small : (tsz level : ℕ) → tsz ≤ 51 → starting_level tsz ≡ some level → level ≤ 3
unfolding starting_level
starting_level_small tsz level h e = ground arith

abbrev pub HasLowLevel : Result Leaf ℕ → Type 0
HasLowLevel (ok found) = found.level ≤ 4
HasLowLevel (err fsc) = Unit

level-descend :
    (desc va shift level : ℕ) (tp : TablePerms) (found : Leaf)
    → descend desc va shift level tp ≡ leaf found
    → found.level ≡ u8 level
unfolding descend make_leaf
level-descend desc va shift level tp found e = ground arith

descend_last :
    (desc va shift level : ℕ) (tp : TablePerms) (base : ℕ) (tp' : TablePerms)
    → descend desc va shift level tp ≡ table base tp'
    → level ≢ 3
unfolding descend
descend_last desc va shift level tp base tp' e = ground arith

module _ (M : GuestMem) where
  open M use {Mem, read_u64}

  -- Reading a table does not change the memory.
  abbrev pub ReadsPure : Type 0
  ReadsPure = (mem mem' : Mem) (addr val : ℕ) → read_u64 mem addr ≡ some (val, mem') → mem' ≡ mem

  round-eq-some :
      (mem : Mem) (base va level : ℕ) (tp : TablePerms)
      (next : Mem → ℕ → TablePerms → Option (Result Leaf ℕ × Mem)) (r : Result Leaf ℕ × Mem)
      → round M mem base va level tp next ≡ some r
      → (level ≤ 4)
        × (desc : ℕ) × (mem' : Mem) × (read_u64 mem
              (base + bit_and (va >>> (39 - level * 9)) 0x1ff * 8)
            ≡ some (desc, mem'))
        × (after (descend desc va (39 - level * 9) level tp) mem' (next mem') ≡ some r)
  unfolding round
  round-eq-some mem base va level tp next r e =
      let (small, e') = check-eq-some (leb (level * 9) 39) _ e in
      let (step, e₁, e₂) =
        bind-eq-some (read_u64 mem (base + bit_and (va >>> (39 - level * 9)) 0x1ff * 8)) _ e' in
      (ground arith, step.0, step.1, e₁, e₂)

  -- A walk leaves the memory as it was, and a leaf that it finds has a level of at most 4.
  walk_from_result :
      (fuel : ℕ) (mem : Mem) (base va level : ℕ) (tp : TablePerms) (r : Result Leaf ℕ) (mem' : Mem)
      → ReadsPure
      → walk_from M fuel mem base va level tp ≡ some (r, mem')
      → HasLowLevel r × (mem' ≡ mem)
  unfolding walk_from after
  walk_from_result zero mem base va level tp r mem' pure e = cc
  walk_from_result (suc fuel) mem base va level tp r mem' pure e =
      let (small, desc, mem₁, reads, ends) = round-eq-some mem base va level tp _ _ e in
      let (low, same) =
        go desc mem₁ small (descend desc va (39 - level * 9) level tp) refl
          (λ base' tp'. walk_from_result fuel mem₁ base' va (level + 1) tp' r mem' pure) ends in
      (low, same ∙ pure mem mem₁ _ desc reads)
    where
      go :
          (desc : ℕ) (mem₁ : Mem)
          → level ≤ 4
          → (d : Descent) → descend desc va (39 - level * 9) level tp ≡ d
          → {next : ℕ → TablePerms → Option (Result Leaf ℕ × Mem)}
          → ((base' : ℕ) (tp' : TablePerms)
              → next base' tp' ≡ some (r, mem')
              → HasLowLevel r × (mem' ≡ mem₁))
          → after d mem₁ next ≡ some (r, mem')
          → HasLowLevel r × (mem' ≡ mem₁)
      go desc mem₁ small (fault fsc) d ih e =
          let same : err fsc ≡ r = cc in (subst HasLowLevel same tt, cc)
      go desc mem₁ small (leaf lf) d ih e =
          let same : ok lf ≡ r = cc in
          (
            subst HasLowLevel same
                (omega (arith, level-descend desc va (39 - level * 9) level tp lf d)),
            cc,
          )
      go desc mem₁ small (table base' tp') d ih e = ih base' tp' e

  pub walk_result :
      (mem : Mem) (base va tsz : ℕ) (r : Result Leaf ℕ) (mem' : Mem)
      → ReadsPure
      → walk M mem base va tsz ≡ some (r, mem')
      → HasLowLevel r × (mem' ≡ mem)
  unfolding walk
  walk_result mem base va tsz r mem' pure e =
      let (level, s, w) = bind-eq-some (starting_level tsz) _ e in
      walk_from_result 6 mem base va level no_table_perms r mem' pure w

  -- For a region size of at most 51, addresses of the same page are walked alike: the same leaf, the
  -- same fault or the same panic.
  pub walk_page :
      (mem : Mem) (base va va' tsz : ℕ)
      → tsz ≤ 51
      → va / 2 ^ 12 ≡ va' / 2 ^ 12
      → walk M mem base va tsz ≡ walk M mem base va' tsz
  unfolding walk
  walk_page mem base va va' tsz h e = elim (Option-cases (starting_level tsz)) [
    | inl panics ↦ rw panics refl
    | inr (level, at) ↦ rw at (
        walk_from_page M 6 mem base va va' level no_table_perms
          (starting_level_small tsz level h at) e)
  ]

  -- Reading a table does not panic.
  abbrev pub ReadsTotal : Type 0
  ReadsTotal = (mem : Mem) (addr : ℕ) → (r : ℕ × Mem) × (read_u64 mem addr ≡ some r)

  -- From a level of the table format, as many rounds as levels are left and one more suffice.
  walk_from_total :
      (fuel : ℕ) (mem : Mem) (base va level : ℕ) (tp : TablePerms)
      → ReadsTotal
      → level ≤ 3
      → 3 < level + fuel
      → (r : Result Leaf ℕ × Mem) × (walk_from M fuel mem base va level tp ≡ some r)
  unfolding walk_from round after
  walk_from_total zero mem base va level tp total h f = absurd (omega arith)
  walk_from_total (suc fuel) mem base va level tp total h f =
      let ((desc, mem₁), reads) = total mem (base + bit_and (va >>> (39 - level * 9)) 0x1ff * 8) in
      let inside : leb (level * 9) 39 ≡ true = ground arith in
      rw (inside, reads)
        (ends mem₁ (descend desc va (39 - level * 9) level tp)
          (λ base' tp' leads.
            walk_from_total fuel mem₁ base' va (level + 1) tp' total
              (below base' tp' (descend_last desc va (39 - level * 9) level tp base' tp' leads))
              (omega arith))
          refl)
    where
      below : (base' : ℕ) (tp' : TablePerms) → level ≢ 3 → level + 1 ≤ 3
      below base' tp' ne = omega arith

      ends :
          (mem₁ : Mem) (d : Descent) {d' : Descent}
          {next : ℕ → TablePerms → Option (Result Leaf ℕ × Mem)}
          → ((base' : ℕ) (tp' : TablePerms)
              → d' ≡ table base' tp'
              → (r : Result Leaf ℕ × Mem) × (next base' tp' ≡ some r))
          → d' ≡ d
          → (r : Result Leaf ℕ × Mem) × (after d mem₁ next ≡ some r)
      ends mem₁ (fault fsc) ih e = ((err fsc, mem₁), refl)
      ends mem₁ (leaf lf) ih e = ((ok lf, mem₁), refl)
      ends mem₁ (table base' tp') ih e = ih base' tp' e

  -- With a region size from 16 to 51 and a memory that can be read at every address, the table
  -- walk ends: it returns a leaf or a fault, without a panic and within the rounds given.
  pub walk_total :
      (mem : Mem) (base va tsz : ℕ)
      → ReadsTotal
      → IsLegal tsz
      → (r : Result Leaf ℕ × Mem) × (walk M mem base va tsz ≡ some r)
  unfolding walk
  walk_total mem base va tsz total legal =
      let (level, at, low, covers, least) = starting_level_lem tsz legal in
      rw at (walk_from_total 6 mem base va level no_table_perms total low (omega arith))
