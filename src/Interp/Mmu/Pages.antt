-- ===== src/Interp/Mmu/Pages.antt =====
-- A walk reads of the address no more than its page.
use v.Base.{ℕ, zero, suc, ◌+◌, ◌-◌, ◌*◌, ◌/◌, ◌%◌, ◌^◌, ◌≤◌, ◌<◌, ◌≡◌, refl, ap, arith, bit_and}
use v.Base.{u8}
use mathlib.Core.Path.{fun_ext}
use v.Interp.Memory.{GuestMem}
use v.Base.{not, ◌&&◌, ◌||◌, ◌!=◌, dec_lt, Result, check, leb, ◌>>=◌, ◌>>◌, not64, one_at, Option}
use v.Base.Bits.{bit_and_field, bit_or-shift, bit_and-shift}
use v.Interp.Mmu.{Leaf, TablePerms, after, round, page_mask, make_leaf, descend, walk_from}

-- The page of an address, as the code computes it and as a multiple of 4096.
pub page_as_product : (va : ℕ) → bit_and va (not64 page_mask) ≡ va / 2 ^ 12 % 2 ^ 52 * 2 ^ 12
page_as_product va = bit_and_field 12 52 va

make_leaf_page :
    (desc va va' shift level : ℕ) (tp : TablePerms)
    → va / 2 ^ 12 ≡ va' / 2 ^ 12
    → make_leaf desc va shift level tp ≡ make_leaf desc va' shift level tp
unfolding make_leaf
make_leaf_page desc va va' shift level tp e =
    ap
      (λ p. record {
        pa_page = p;
        el0_access = bit_and desc (one_at 6) != 0 && not tp.no_el0;
        read_only = bit_and desc (one_at 7) != 0 || tp.no_write;
        uxn = bit_and desc (one_at 54) != 0 || tp.uxn;
        pxn = bit_and desc (one_at 53) != 0 || tp.pxn;
        level = u8 level;
      })
      (simp (page_as_product, bit_or-shift, bit_and-shift, e))

-- The table index that a level takes from the address.
index_page :
    (va va' level : ℕ)
    → level ≤ 3
    → va / 2 ^ 12 ≡ va' / 2 ^ 12
    → va / 2 ^ (39 - level * 9) ≡ va' / 2 ^ (39 - level * 9)
index_page va va' zero h e = omega (arith, e)
index_page va va' (suc zero) h e = omega (arith, e)
index_page va va' (suc (suc zero)) h e = omega (arith, e)
index_page va va' (suc (suc (suc zero))) h e = omega (arith, e)
index_page va va' (suc (suc (suc (suc level)))) h e = absurd (omega arith)

descend_page :
    (desc va va' shift level : ℕ) (tp : TablePerms)
    → va / 2 ^ 12 ≡ va' / 2 ^ 12
    → descend desc va shift level tp ≡ descend desc va' shift level tp
unfolding descend
descend_page desc va va' shift level tp e = rw (make_leaf_page desc va va' shift level tp e)

-- At level 3 the walk ends, whatever would follow.
after_last {ℓ} :
    {Mem : Type ℓ} (desc va shift : ℕ) (tp : TablePerms) (mem : Mem)
    (next next' : ℕ → TablePerms → Option (Result Leaf ℕ × Mem))
    → after (descend desc va shift 3 tp) mem next ≡ after (descend desc va shift 3 tp) mem next'
unfolding descend after
after_last desc va shift tp mem next next' = ground arith

module _ (M : GuestMem) where
  open M use {Mem, read_u64}

  round_page :
      (mem : Mem) (base va va' level : ℕ) (tp : TablePerms)
      (next next' : Mem → ℕ → TablePerms → Option (Result Leaf ℕ × Mem))
      → level ≤ 3
      → va / 2 ^ 12 ≡ va' / 2 ^ 12
      → (level < 3 → next ≡ next')
      → round M mem base va level tp next ≡ round M mem base va' level tp next'
  unfolding round
  round_page mem base va va' level tp next next' h e same = rw (index_page va va' level h e) (
      ap
        (λ k.
          check (leb (level * 9) 39)
          >> (read_u64 mem (base + bit_and (va' / 2 ^ (39 - level * 9)) 0x1ff * 8) >>= k))
        (fun_ext λ r. each r.0 r.1))
    where
      each :
          (desc : ℕ) (mem' : Mem)
          → after (descend desc va (39 - level * 9) level tp) mem' (next mem')
            ≡ after (descend desc va' (39 - level * 9) level tp) mem' (next' mem')
      each desc mem' =
          rw (descend_page desc va va' (39 - level * 9) level tp e) (elim (dec_lt level 3) [
            | yes below ↦ rw (same below) refl
            | no last ↦
                let at : level ≡ 3 = omega arith in
                rw at (after_last desc va' 12 tp mem' (next mem') (next' mem'))
          ])

  -- A walk from a level of the table format depends on the page of the address only.
  pub walk_from_page :
      (fuel : ℕ) (mem : Mem) (table_base va va' level : ℕ) (tp : TablePerms)
      → level ≤ 3
      → va / 2 ^ 12 ≡ va' / 2 ^ 12
      → walk_from M fuel mem table_base va level tp ≡ walk_from M fuel mem table_base va' level tp
  unfolding walk_from
  walk_from_page zero mem base va va' level tp h e = refl
  walk_from_page (suc fuel) mem base va va' level tp h e =
      round_page mem base va va' level tp _ _ h e (λ below i mem' base' tp'.
        walk_from_page fuel mem' base' va va' (level + 1) tp' (omega arith) e i)
