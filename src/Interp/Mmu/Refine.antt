-- ===== src/Interp/Mmu/Refine.antt =====
-- The translation cache is transparent: with it, `translate` returns what a walk of the tables on
-- every access would.
use v.Base.{ℕ, ◌/◌, ◌^◌, ◌≤◌, ◌<◌, ◌≡◌, refl, sym, ◌∙◌, not, arith}
use v.Base.{bit_and, ◌>>>◌, Option, none, some, Result, ok, err, ◌>>=◌, bind-eq-some}
use v.Base.{Option-cases, Bool-cases}
use v.Base.{==→eq, ◌==◌, if◌then◌else◌, inl, inr, not64}
use mathlib.Core.Path.{subst}
use v.Cpu.Tlb
use v.Cpu.Tlb.Laws.{IsValid, lookup-insert, lookup-flush, insert-IsValid, flush-IsValid}
use v.Cpu.State.{CpuState, flush_tlb}
use v.Interp.Memory.{GuestMem}
use v.Interp.Mmu.{Access, Leaf, page_mask, oa_mask, mmu_enabled, pack, unpack, grant, region}
use v.Interp.Mmu.{walk_va}
use v.Interp.Mmu.{translate, translate_miss}
use v.Interp.Mmu.Packing.{unpack-pack}
use v.Interp.Mmu.Pages.{page_as_product}
use v.Interp.Mmu.Walk.{ReadsPure, HasLowLevel, walk_result, walk_page}

-- Both regions have a size for which the walk starts at a level of the table format.
pub record HasRegions (cpu : CpuState) : Type 0 where
  pub low : bit_and cpu.tcr_el1 0x3f ≤ 51
  pub high : bit_and (cpu.tcr_el1 >>> 16) 0x3f ≤ 51

abbrev page : ℕ → ℕ
page va = bit_and va (not64 page_mask)

page-eq :
    (va va' : ℕ) → va < 2 ^ 64 → va' < 2 ^ 64 → page va ≡ page va' → va / 2 ^ 12 ≡ va' / 2 ^ 12
page-eq va va' h h' e = omega (arith, page_as_product va, page_as_product va', e)

region_page :
    (cpu : CpuState) (va va' : ℕ) → va / 2 ^ 12 ≡ va' / 2 ^ 12 → region cpu va ≡ region cpu va'
unfolding region
region_page cpu va va' e = rw same_half refl
  where
    same_half : va / 2 ^ 55 ≡ va' / 2 ^ 55
    same_half = omega (arith, e)

region-le : (cpu : CpuState) (va : ℕ) → HasRegions cpu → (region cpu va).1 ≤ 51
unfolding region
region-le cpu va h = ground arith

module _ (M : GuestMem) where
  open M use {Mem}

  -- Every cached page is what a walk finds for each address of the page.
  pub record IsCoherent (cpu : CpuState) (mem : Mem) : Type 0 where
    pub valid : IsValid cpu.tlb
    pub regions : HasRegions cpu
    pub cached :
        (va pa perms : ℕ)
        → va < 2 ^ 64
        → Tlb.lookup cpu.tlb (page va) ≡ some (pa, perms)
        → (found : Leaf) × (walk_va M cpu mem va ≡ some (ok found, mem))
          × (found.pa_page ≡ pa)
          × (pack found ≡ perms)

  -- The translation without a cache.
  abbrev pub translate_uncached : CpuState → Mem → ℕ → Access → ℕ → Option (Result ℕ ℕ)
  translate_uncached cpu mem va access el = if not (mmu_enabled cpu) then some (ok va) else (do
    (found, mem') ← walk_va M cpu mem va
    elim found [ err fsc ↦ some (err fsc) | ok lf ↦ some (grant el lf access va) ])

  walk_va_page :
      (cpu : CpuState) (mem : Mem) (va va' : ℕ)
      → HasRegions cpu
      → va / 2 ^ 12 ≡ va' / 2 ^ 12
      → walk_va M cpu mem va ≡ walk_va M cpu mem va'
  unfolding walk_va
  walk_va_page cpu mem va va' h e = rw (region_page cpu va va' e) (
      walk_page M mem (bit_and (region cpu va').0 oa_mask) va va' (region cpu va').1
        (region-le cpu va' h) e)

  pub walk_va_result :
      (cpu : CpuState) (mem : Mem) (va : ℕ) (r : Result Leaf ℕ) (mem' : Mem)
      → ReadsPure M
      → walk_va M cpu mem va ≡ some (r, mem')
      → HasLowLevel r × (mem' ≡ mem)
  unfolding walk_va
  walk_va_result cpu mem va r mem' pure e =
      walk_result M mem (bit_and (region cpu va).0 oa_mask) va (region cpu va).1 r mem' pure e

  -- A flush of a cache with all its slots makes it coherent with whatever the tables and the
  -- registers are, if both region sizes (T0SZ and T1SZ) are at most 51.
  pub flush_tlb-IsCoherent :
      (cpu : CpuState) (mem : Mem)
      → IsValid cpu.tlb
      → HasRegions cpu
      → IsCoherent (flush_tlb cpu) mem
  unfolding flush_tlb
  flush_tlb-IsCoherent cpu mem v h = record {
    valid = flush-IsValid v;
    regions = record { low = h.low; high = h.high };
    cached = λ va pa perms lt e. absurd (
        cc (lookup-flush cpu.tlb (page va) (λ at. absurd (omega (arith, page_as_product va, at)))));
  }

  -- A hit of a coherent cache is the leaf that a walk finds.
  unpack-cached :
      (cpu : CpuState) (mem : Mem) (va pa perms : ℕ)
      → ReadsPure M
      → IsCoherent cpu mem
      → va < 2 ^ 64
      → Tlb.lookup cpu.tlb (page va) ≡ some (pa, perms)
      → walk_va M cpu mem va ≡ some (ok (unpack pa perms), mem)
  unpack-cached cpu mem va pa perms pure h lt e =
      let (found, walks, at_page, at_perms) = h.cached va pa perms lt e in
      let (low, same) = walk_va_result cpu mem va (ok found) mem pure walks in
      let unpacked : unpack pa perms ≡ found =
        rw (sym at_page, sym at_perms) (unpack-pack found (omega arith)) in
      rw unpacked walks

  -- With a coherent cache, over a memory that the reading of tables does not change, `translate`
  -- returns what the translation without a cache returns, a panic included: for every address
  -- below 2 ^ 64, kind of access and exception level.
  pub translate_refines :
      (cpu : CpuState) (mem : Mem) (va : ℕ) (access : Access) (el : ℕ)
      → ReadsPure M
      → IsCoherent cpu mem
      → va < 2 ^ 64
      → (translate M cpu mem va access el >>= λ r. some r.0)
        ≡ translate_uncached cpu mem va access el
  unfolding translate translate_miss
  translate_refines cpu mem va access el pure h lt = elim (Bool-cases (mmu_enabled cpu)) [
    | inr off ↦ rw off refl
    | inl on ↦ elim (Option-cases (Tlb.lookup cpu.tlb (page va))) [
      | inr ((pa, perms), hit) ↦ rw (on, hit, unpack-cached cpu mem va pa perms pure h lt hit) refl
      | inl miss ↦
          rw (on, miss)
            (elim (Option-cases (walk_va M cpu mem va)) [
              | inl panics ↦ rw panics refl
              | inr ((err fsc, mem'), walks) ↦ rw walks refl
              | inr ((ok lf, mem'), walks) ↦ rw walks refl
            ])
    ]
  ]

  insert-IsCoherent :
      (cpu : CpuState) (mem : Mem) (va : ℕ) (lf : Leaf)
      → IsCoherent cpu mem
      → va < 2 ^ 64
      → walk_va M cpu mem va ≡ some (ok lf, mem)
      → IsCoherent (record cpu { tlb = Tlb.insert cpu.tlb (page va) lf.pa_page (pack lf) }) mem
  unfolding walk_va region
  insert-IsCoherent cpu mem va lf h lt walks = record {
    valid = insert-IsValid (page va) lf.pa_page (pack lf) h.valid;
    regions = record { low = h.regions.low; high = h.regions.high };
    cached = λ va' pa perms lt' e.
        at va' pa perms lt'
          (sym (lookup-insert (page va) lf.pa_page (pack lf) (page va') h.valid) ∙ e);
  }
    where
      at :
          (va' pa perms : ℕ)
          → va' < 2 ^ 64
          → (if page va == page va'
              then some (lf.pa_page, pack lf)
              else if Tlb.index (page va) == Tlb.index (page va')
              then none
              else Tlb.lookup cpu.tlb (page va'))
            ≡ some (pa, perms)
          → (found : Leaf) × (walk_va M cpu mem va' ≡ some (ok found, mem))
            × (found.pa_page ≡ pa)
            × (pack found ≡ perms)
      at va' pa perms lt' e = elim (Bool-cases (page va == page va')) [
        | inl same ↦ (
          lf,
          sym (walk_va_page cpu mem va va' h.regions (page-eq va va' lt lt' (==→eq _ _ same)))
              ∙ walks,
          ground arith,
          ground arith,
        )
        | inr differ ↦ h.cached va' pa perms lt' (ground arith)
      ]

  -- With a coherent cache, over a memory that the reading of tables does not change, a translation
  -- of an address below 2 ^ 64 that does not panic leaves the memory as it was and the cache
  -- coherent with it, whether it hits, walks or faults.
  pub translate-IsCoherent :
      (cpu : CpuState) (mem : Mem) (va : ℕ) (access : Access) (el : ℕ) {r : Result ℕ ℕ}
      {cpu' : CpuState} {mem' : Mem}
      → ReadsPure M
      → IsCoherent cpu mem
      → va < 2 ^ 64
      → translate M cpu mem va access el ≡ some (r, cpu', mem')
      → (mem' ≡ mem) × IsCoherent cpu' mem
  unfolding translate translate_miss
  translate-IsCoherent cpu mem va access el {r} {cpu'} {mem'} pure h lt e =
      elim (Bool-cases (mmu_enabled cpu)) [
        | inr off ↦ unchanged _ (rw off at e)
        | inl on ↦ elim (Option-cases (Tlb.lookup cpu.tlb (page va))) [
          | inr ((pa, perms), hit) ↦ unchanged _ (rw (on, hit) at e)
          | inl miss ↦ missed (rw (on, miss) at e)
        ]
      ]
    where
      unchanged :
          (r' : Result ℕ ℕ)
          → ◌≡◌ {A = Option (Result ℕ ℕ × CpuState × Mem)}
              (some (r', cpu, mem))
              (some (r, cpu', mem'))
          → (mem' ≡ mem) × IsCoherent cpu' mem
      unchanged r' e = let same : cpu ≡ cpu' = cc in (cc, subst (λ c. IsCoherent c mem) same h)

      filled :
          (found : Result Leaf ℕ) (mem₁ : Mem)
          → walk_va M cpu mem va ≡ some (found, mem₁)
          → translate_miss M cpu mem va access el ≡ some (r, cpu', mem')
          → (mem' ≡ mem) × IsCoherent cpu' mem
      filled (err fsc) mem₁ walks e =
          let (low, same) = walk_va_result cpu mem va (err fsc) mem₁ pure walks in
          let ends : ◌≡◌ {A = Option (Result ℕ ℕ × CpuState × Mem)} (some (err fsc, cpu, mem₁))
              (some (r, cpu', mem')) =
            rw walks at e in
          let kept : cpu ≡ cpu' = cc in
          let left : mem' ≡ mem₁ = cc in (left ∙ same, subst (λ c. IsCoherent c mem) kept h)
      filled (ok lf) mem₁ walks e =
          let (low, same) = walk_va_result cpu mem va (ok lf) mem₁ pure walks in
          let ends : ◌≡◌ {A = Option (Result ℕ ℕ × CpuState × Mem)}
              (some (
                grant el lf access va,
                record cpu { tlb = Tlb.insert cpu.tlb (page va) lf.pa_page (pack lf) },
                mem₁,
              ))
              (some (r, cpu', mem')) =
            rw walks at e in
          let cached : record cpu { tlb = Tlb.insert cpu.tlb (page va) lf.pa_page (pack lf) }
              ≡ cpu' =
            cc in
          let left : mem' ≡ mem₁ = cc in
          (
            left ∙ same,
            subst (λ c. IsCoherent c mem) cached
                (insert-IsCoherent cpu mem va lf h lt
                  (subst (λ m. walk_va M cpu mem va ≡ some (ok lf, m)) same walks)),
          )

      missed :
          translate_miss M cpu mem va access el ≡ some (r, cpu', mem')
          → (mem' ≡ mem) × IsCoherent cpu' mem
      missed e =
          let ((found, mem₁), walks, rest) = bind-eq-some (walk_va M cpu mem va) _ e in
          filled found mem₁ walks e
