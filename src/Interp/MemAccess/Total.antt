-- ===== src/Interp/MemAccess/Total.antt =====
-- A gathering access returns: its rounds do not run out, and nothing in it panics on a memory that
-- can be read everywhere.
use v.Base.{ℕ, zero, suc, ◌+◌, ◌^◌, ◌<◌, ◌≤◌, ◌≡◌, refl, sym, ◌∙◌, arith}
use v.Base.{not64}
use v.Base.{Bool, true, false, Bool-cases, inl, inr, Option, none, some, Result, ok, err, ltb}
use v.Base.{ltb→lt}
use v.Base.{◌>>=◌, ◌>>◌, check, not, bit_and, ◌>>>◌, if◌then◌else◌, ◌==◌}
use mathlib.Core.Path.{subst}
use v.Cpu.State.{CpuState}
use v.Cpu.Tlb
use v.Interp.Memory.{GuestMem}
use v.Interp.Mmu.{Access, translate, translate_miss, walk_va, region, mmu_enabled}
use v.Interp.Mmu.{page_mask}
use v.Interp.Mmu.Pages.{page_as_product}
use v.Interp.Mmu.Walk.{IsLegal, ReadsTotal, walk_total}
use v.Interp.MemAccess.{page_end, xlate, gather_bytes, gather_from, gather}
use v.Interp.MemAccess.Frame.{Untouched, xlate-Untouched}
use v.Interp.MemAccess.Gather.{gather_from-gather, chunk_bounds}

-- The step returns a result.
abbrev pub Returns {ℓ} : {A : Type ℓ} → Option A → Type ℓ
Returns {A} m = (a : A) × (m ≡ some a)

no_result {ℓ} : {A : Type ℓ} {a : A} → none ≡ some a → ⊥
no_result e = cc

Returns-bind {ℓ κ} :
    {A : Type ℓ} {B : Type κ} (m : Option A) (f : A → Option B)
    → Returns m
    → ((a : A) → m ≡ some a → Returns (f a))
    → Returns (m >>= f)
Returns-bind none f h k = absurd (no_result h.1)
Returns-bind (some a) f h k = k a refl

Returns-if {ℓ} :
    {A : Type ℓ} (b : Bool) (m n : Option A)
    → (b ≡ true → Returns m)
    → (b ≡ false → Returns n)
    → Returns (if b then m else n)
Returns-if true m n km kn = km refl
Returns-if false m n km kn = kn refl

Returns-check {ℓ} :
    {A : Type ℓ} (b : Bool) (m : Option A) → b ≡ true → Returns m → Returns (check b >> m)
Returns-check true m e k = k
Returns-check false m e k = cc

Returns-match {ℓ κ} :
    {A : Type ℓ} {B : Type κ} (o : Option A) (f : A → Option B) (n : Option B)
    → Returns n
    → ((a : A) → o ≡ some a → Returns (f a))
    → Returns (elim o [ none ↦ n | some a ↦ f a ])
Returns-match none f n k kf = k
Returns-match (some a) f n k kf = kf a refl

Returns-result {ℓ κ ι} :
    {A : Type ℓ} {E : Type κ} {B : Type ι} (r : Result A E) (f : A → Option B) (g : E → Option B)
    → ((a : A) → Returns (f a))
    → ((x : E) → Returns (g x))
    → Returns (elim r [ err x ↦ g x | ok a ↦ f a ])
Returns-result (ok a) f g kf kg = kf a
Returns-result (err x) f g kf kg = kg x

-- Both region sizes are ones that the architecture allows, 16 to 51.
pub record HasLegalRegions (cpu : CpuState) : Type 0 where
  pub low : IsLegal (bit_and cpu.tcr_el1 0x3f)
  pub high : IsLegal (bit_and (cpu.tcr_el1 >>> 16) 0x3f)

region-IsLegal : (cpu : CpuState) (va : ℕ) → HasLegalRegions cpu → IsLegal (region cpu va).1
unfolding region
region-IsLegal cpu va h = elim (Bool-cases (bit_and (va >>> 55) 1 == 1)) [
  | inl e ↦ rw e h.high
  | inr e ↦ rw e h.low
]

HasLegalRegions-Untouched :
    {cpu cpu' : CpuState} → Untouched cpu cpu' → HasLegalRegions cpu → HasLegalRegions cpu'
HasLegalRegions-Untouched u h =
    subst HasLegalRegions (sym u.same) (record { low = h.low; high = h.high })

module _ (M : GuestMem) where
  open M use {Mem, read_u8}

  -- Every byte can be read.
  abbrev pub BytesTotal : Type 0
  BytesTotal = (mem : Mem) (addr : ℕ) → Returns (read_u8 mem addr)

  module _ (tables : ReadsTotal M) where
    walk_va_total :
        (cpu : CpuState) (mem : Mem) (va : ℕ) → HasLegalRegions cpu → Returns (walk_va M cpu mem va)
    unfolding walk_va
    walk_va_total cpu mem va h =
        walk_total M mem _ va (region cpu va).1 tables (region-IsLegal cpu va h)

    translate_total :
        (cpu : CpuState) (mem : Mem) (va : ℕ) (access : Access) (el : ℕ)
        → HasLegalRegions cpu
        → Returns (translate M cpu mem va access el)
    unfolding translate translate_miss
    translate_total cpu mem va access el h =
        Returns-if (not (mmu_enabled cpu)) _ _ (λ off. (_, refl))
          λ on.
            Returns-match (Tlb.lookup cpu.tlb (bit_and va (not64 page_mask))) _ _
              (Returns-bind (walk_va M cpu mem va) _ (walk_va_total cpu mem va h)
                λ found e. Returns-result found.0 _ _ (λ lf. (_, refl)) λ fsc. (_, refl))
              λ hit e. (_, refl)

    xlate_total :
        (cpu : CpuState) (mem : Mem) (va : ℕ) (w : Bool) (el : ℕ)
        → HasLegalRegions cpu
        → Returns (xlate M cpu mem va w el)
    unfolding xlate
    xlate_total cpu mem va w el h =
        Returns-bind (translate M cpu mem va _ el) _ (translate_total cpu mem va _ el h)
          λ r e. (_, refl)

    module _ (bytes : BytesTotal) where
      gather_bytes_total :
          (left : ℕ) (mem : Mem) (pa at val : ℕ) → Returns (gather_bytes M left mem pa at val)
      unfolding gather_bytes
      gather_bytes_total zero mem pa at val = (_, refl)
      gather_bytes_total (suc left) mem pa at val =
          Returns-bind (read_u8 mem pa) _ (bytes mem pa)
            λ r e. gather_bytes_total left r.1 (pa + 1) (at + 1) _

      gather_from_total :
          (fuel : ℕ) (cpu : CpuState) (mem : Mem) (va n el done val : ℕ)
          → HasLegalRegions cpu
          → va + n + 2 ^ 12 ≤ 2 ^ 64
          → done ≤ n
          → n < done + fuel
          → Returns (gather_from M fuel cpu mem va n el done val)
      unfolding gather_from
      gather_from_total zero cpu mem va n el done val h room le more = absurd (omega arith)
      gather_from_total (suc fuel) cpu mem va n el done val h room le enough =
          Returns-if (ltb done n) _ _
            (λ more. Returns-check (ltb (page_end (va + done)) (2 ^ 64)) _ (fits more) (
              Returns-bind (xlate M cpu mem (va + done) false el) _
                (xlate_total cpu mem (va + done) false el h)
                λ r e.
                  Returns-match r.0 _ _ (_, refl)
                    λ pa e'.
                      Returns-bind (gather_bytes M _ r.2 pa done val) _
                        (gather_bytes_total _ r.2 pa done val)
                        λ s e″.
                          let b =
                            chunk_bounds va n done (omega arith) (ltb→lt done n more) (fits more) in
                          gather_from_total fuel r.1 s.1 va n el _ s.0
                            (HasLegalRegions-Untouched
                              ((xlate-Untouched M cpu mem (va + done) false el).at r e) h)
                            room b.1 (omega (arith, b))))
            λ end. (_, refl)
        where
          fits : ltb done n ≡ true → ltb (page_end (va + done)) (2 ^ 64) ≡ true
          fits more = ground (arith, page_as_product (va + done))

      -- Let both region sizes be ones the architecture allows, every table entry and every byte
      -- of the memory readable, and the access end at least a page below the top of the address
      -- space. Then a gathering access returns a result, without a panic and within its rounds, and
      -- any number of rounds above its number of bytes gives the same result.
      pub gather_total :
          (cpu : CpuState) (mem : Mem) (va n el fuel : ℕ)
          → HasLegalRegions cpu
          → va + n + 2 ^ 12 ≤ 2 ^ 64
          → n < fuel
          → (r : ℕ × CpuState × Mem) × (gather M cpu mem va n el ≡ some r)
            × (gather_from M fuel cpu mem va n el 0 0 ≡ some r)
      unfolding gather
      gather_total cpu mem va n el fuel h room enough =
          let (r, e) =
            gather_from_total (n + 1) cpu mem va n el 0 0 h room (omega arith) (omega arith) in
          (r, e, gather_from-gather M fuel cpu mem va n el (omega arith) enough ∙ e)
