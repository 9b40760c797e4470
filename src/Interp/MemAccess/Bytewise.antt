-- ===== src/Interp/MemAccess/Bytewise.antt =====
-- Inside a page the bytes of flat memory make the same value as one sized read.
use v.Base.{ℕ, zero, suc, ◌+◌, ◌-◌, ◌*◌, ◌^◌, ◌<◌, ◌≤◌, ◌≡◌, refl, sym, ap, ◌∙◌}
use v.Base.{bit_or, arith}
use v.Base.{Bool, true, false, Option, none, some, leb, ◌>>=◌}
use v.Base.{get_elem?, Option-cases, Bool-cases, bind-eq-some, u64, inl, inr}
use v.Base.Bits.{bit_or_join_low}
use native.Mathlib.Nat.{pow-suc, zero-mul, add-zero, add-mul, mul_assoc, mul-le-mul_right}
use native.Mathlib.Nat.{pow-le-pow_right}
use v.Cpu.State.{CpuState}
use mathlib.Core.Path.{subst}
use v.Base.Chains.{bind_along, option_along}
use v.Base.Ensures.{Ensures, Ensures-some, Ensures-if, Ensures-after, Ensures-bind, Ensures-match}
use v.Base.Ensures.{Ensures-result}
use v.Base.{Result, ok, err, not, bit_and, not64}
use v.Cpu.Tlb
use v.Interp.Mmu.{Access, translate, translate_miss, mmu_enabled, page_mask, walk_va}
use v.Interp.Mmu.Refine.{walk_va_result}
use v.Interp.Memory.Laws.{flat-ReadsPure}
use v.Interp.MemAccess.{recorded}
use v.Interp.MemAccess.Gather.{gather_from-gather, gather_once}
use v.Interp.Memory.{Memory, flat, read_at, read_le}
use v.Interp.MemAccess.{page_end, xlate, gather_bytes}
use v.Interp.MemAccess.{read_within, read_across, read_sized}

-- What a memory of bytes holds.
pub record HasBytes (m : Memory) : Type 0 where
  pub byte : (j b : ℕ) → get_elem? m.bytes j ≡ some b → b < 256

eight_more : (k : ℕ) → 2 ^ (suc (suc (suc (suc (suc (suc (suc (suc k)))))))) ≡ 2 ^ k * 256
eight_more k = omega (
  arith,
  pow-suc 2 k,
  pow-suc 2 (suc k),
  pow-suc 2 (suc (suc k)),
  pow-suc 2 (suc (suc (suc k))),
  pow-suc 2 (suc (suc (suc (suc k)))),
  pow-suc 2 (suc (suc (suc (suc (suc k))))),
  pow-suc 2 (suc (suc (suc (suc (suc (suc k)))))),
  pow-suc 2 (suc (suc (suc (suc (suc (suc (suc k))))))),
)

pow_step : (at : ℕ) → 2 ^ ((at + 1) * 8) ≡ 2 ^ (at * 8) * 256
pow_step at = ap (λ e. 2 ^ e) shape ∙ eight_more (at * 8)
  where
    shape : (at + 1) * 8 ≡ suc (suc (suc (suc (suc (suc (suc (suc (at * 8))))))))
    shape = omega arith

read_byte :
    (m : Memory) (pa : ℕ)
    → m.base ≤ pa
    → read_at 1 m pa ≡ ◌>>=◌ {B = ℕ × Memory} (get_elem? m.bytes (pa - m.base)) (λ b. some (b, m))
unfolding read_at read_le
read_byte m pa up = rw inside (one (get_elem? m.bytes (pa - m.base)))
  where
    inside : leb m.base pa ≡ true
    inside = ground arith

    one :
        (o : Option ℕ)
        → ◌>>=◌ {B = ℕ × Memory} (o >>= λ b. some (b + 256 * 0)) (λ v. some (v, m))
          ≡ ◌>>=◌ {B = ℕ × Memory} o (λ b. some (b, m))
    one none = refl
    one (some b) = simp add-zero

-- One byte more.
joined_sum : (b v p val : ℕ) → b * p + val + v * (p * 256) ≡ val + (b + 256 * v) * p
joined_sum b v p val = omega (arith, add-mul b (256 * v) p, mul_assoc 256 v p, mul_assoc v p 256)

joined-lt : (b p val : ℕ) → b < 256 → val < p → b * p + val < p * 256
joined-lt b p val lb lv = omega (arith, mul-le-mul_right p (below b lb), lv)
  where
    below : (x : ℕ) → x < 256 → x ≤ 255
    below x l = omega arith

module _ (m : Memory) (h : HasBytes m) where
  gather_bytes-read_le :
      (n pa at val : ℕ)
      → m.base ≤ pa
      → val < 2 ^ (at * 8)
      → gather_bytes flat n m pa at val
        ≡ ◌>>=◌ {B = ℕ × Memory}
            (read_le n m.bytes (pa - m.base))
            (λ v. some (val + v * 2 ^ (at * 8), m))
  unfolding gather_bytes read_le
  gather_bytes-read_le zero pa at val up lt = simp (zero-mul, add-zero)
  gather_bytes-read_le (suc n) pa at val up lt =
      rw (read_byte m pa up) (elim (Option-cases (get_elem? m.bytes (pa - m.base))) [
        | inl e ↦ rw e refl
        | inr (b, e) ↦ rw (e) (
            let joins : bit_or val (b * 2 ^ (at * 8)) ≡ b * 2 ^ (at * 8) + val =
              bit_or_join_low (at * 8) b val lt in
            let fits : b * 2 ^ (at * 8) + val < 2 ^ ((at + 1) * 8) =
              rw (pow_step at) (joined-lt b (2 ^ (at * 8)) val (h.byte _ b e) lt) in
            let next : pa + 1 - m.base ≡ pa - m.base + 1 = omega arith in
            rw
              (
                joins,
                gather_bytes-read_le n (pa + 1) (at + 1) _ (omega arith) fits,
                next,
                pow_step at,
              )
              (sums b (2 ^ (at * 8)) val (read_le n m.bytes (pa - m.base + 1))))
      ])
    where
      sums :
          (b p val : ℕ) (o : Option ℕ)
          → ◌>>=◌ {B = ℕ × Memory} o (λ v. some (b * p + val + v * (p * 256), m))
            ≡ ◌>>=◌ {B = ℕ × Memory}
                (o >>= λ rest. some (b + 256 * rest))
                (λ v. some (val + v * p, m))
      sums b p val none = refl
      sums b p val (some v) = ap (λ x. some (x, m)) (joined_sum b v p val)

  some_injective : {a b : ℕ} → some a ≡ some b → a ≡ b
  some_injective e = cc

  read_le-lt : (n o v : ℕ) → read_le n m.bytes o ≡ some v → v < 256 ^ n
  unfolding read_le
  read_le-lt zero o v e = omega (arith, some_injective e)
  read_le-lt (suc n) o v e =
      let (b, reads, f) = bind-eq-some (get_elem? m.bytes o) _ e in
      let (rest, more, g) = bind-eq-some (read_le n m.bytes (o + 1)) _ f in
      let i = read_le-lt n (o + 1) rest more in
      omega (arith, pow-suc 256 n, h.byte o b reads, i, some_injective g)

  outside-none : (k pa : ℕ) → leb m.base pa ≡ false → gather_bytes flat (suc k) m pa 0 0 ≡ none
  unfolding gather_bytes read_at
  outside-none k pa low = rw low refl

  sized_as_bytes :
      (k pa : ℕ) (cpu : CpuState)
      → suc k ≤ 8
      → ◌>>=◌ {B = ℕ × CpuState × Memory}
          (gather_bytes flat (suc k) m pa 0 0)
          (λ s. some (u64 s.0, cpu, s.1))
        ≡ ◌>>=◌ {B = ℕ × CpuState × Memory} (read_at (suc k) m pa) (λ s. some (s.0, cpu, s.1))
  unfolding read_at
  sized_as_bytes k pa cpu le = elim (Bool-cases (leb m.base pa)) [
    | inl up ↦
        rw (up, gather_bytes-read_le (suc k) pa 0 0 (ground arith) (omega arith))
          (elim (Option-cases (read_le (suc k) m.bytes (pa - m.base))) [
            | inl e ↦ rw e refl
            | inr (v, e) ↦ rw e (ap (λ x. some (x, cpu, m)) (whole v (read_le-lt (suc k) _ v e)))
          ])
    | inr low ↦ rw (low, outside-none k pa low) refl
  ]
    where
      whole : (v : ℕ) → v < 256 ^ suc k → u64 (0 + v * 2 ^ (0 * 8)) ≡ v
      whole v lt =
          omega (arith, lt, pow-le-pow_right {n = 256} (omega arith) {i = suc k} {j = 8} le)

-- Translating an address does not change flat memory.
translate-same :
    (cpu : CpuState) (m : Memory) (va : ℕ) (access : Access) (el : ℕ)
    → Ensures (λ (r : Result ℕ ℕ × CpuState × Memory). r.2 ≡ m) (translate flat cpu m va access el)
unfolding translate translate_miss
translate-same cpu m va access el =
    Ensures-if (not (mmu_enabled cpu)) _ _ (λ off. Ensures-some refl)
      λ on.
        Ensures-match (Tlb.lookup cpu.tlb (bit_and va (not64 page_mask))) _ _
          (λ miss. Ensures-after (walk_va flat cpu m va) _ λ found e.
            let same = (walk_va_result flat cpu m va found.0 found.1 flat-ReadsPure e).1 in
            Ensures-result found.0 _ _ (λ lf ok. Ensures-some same) λ fsc bad. Ensures-some same)
          λ found hit. Ensures-some refl

recorded-same :
    (r : Result ℕ ℕ) (cpu : CpuState) (m : Memory) (va : ℕ) (w : Bool)
    → (recorded flat r cpu m va w).2 ≡ m
unfolding recorded
recorded-same (ok pa) cpu m va w = refl
recorded-same (err fsc) cpu m va w = refl

xlate-same :
    (cpu : CpuState) (m : Memory) (va : ℕ) (w : Bool) (el : ℕ)
    → Ensures (λ (r : Option ℕ × CpuState × Memory). r.2 ≡ m) (xlate flat cpu m va w el)
unfolding xlate
xlate-same cpu m va w el =
    Ensures-bind _ _ (translate-same cpu m va _ el)
      λ r e. Ensures-some (recorded-same r.0 r.1 r.2 va w ∙ e)

-- The two paths for an access of `suc k` bytes.
paths_agree :
    (k size : ℕ) (cpu : CpuState) (m : Memory) (va el : ℕ)
    → HasBytes m
    → suc k ≤ 8
    → ((m' : Memory) (pa : ℕ) → read_sized flat m' pa size ≡ read_at (suc k) m' pa)
    → va + suc k ≤ page_end va
    → page_end va < 2 ^ 64
    → read_across flat cpu m va (suc k) el ≡ read_within flat cpu m va size el
unfolding read_across read_within
paths_agree k size cpu m va el h le sized inside last =
    rw
      (
        sym (gather_from-gather flat (suc (suc k)) cpu m va (suc k) el (omega arith) (omega arith)),
        gather_once flat k cpu m va (suc k) el (omega arith) inside last,
      )
      (sym (
        bind_along (xlate flat cpu m va false el) _ _ _ λ r e.
          let bytes = subst HasBytes (sym ((xlate-same cpu m va false el).at r e)) h in
          option_along r.0 _ _ _ _ _
            (λ pa. rw (sized r.2 pa) (
              sym (sized_as_bytes r.2 bytes k pa r.1 le)
              ∙ bind_along (gather_bytes flat (suc k) r.2 pa 0 0) _ _ _ λ x e'. refl))
            refl))

-- On flat memory whose entries are bytes, let an access of size 0 to 3 lie inside a page that is not
-- the last of the address space. Then the bytewise path of `read_at` and its fast path give the same
-- value, state and memory, faults and panics included.
pub read_across-read_within :
    (cpu : CpuState) (m : Memory) (va size el : ℕ)
    → HasBytes m
    → size < 4
    → va + 2 ^ size ≤ page_end va
    → page_end va < 2 ^ 64
    → read_across flat cpu m va (2 ^ size) el ≡ read_within flat cpu m va size el
unfolding read_sized
read_across-read_within cpu m va zero el h lt inside last =
    paths_agree 0 0 cpu m va el h (omega arith) (λ m' pa. refl) inside last
read_across-read_within cpu m va (suc zero) el h lt inside last =
    paths_agree 1 1 cpu m va el h (omega arith) (λ m' pa. refl) inside last
read_across-read_within cpu m va (suc (suc zero)) el h lt inside last =
    paths_agree 3 2 cpu m va el h (omega arith) (λ m' pa. refl) inside last
read_across-read_within cpu m va (suc (suc (suc zero))) el h lt inside last =
    paths_agree 7 3 cpu m va el h (omega arith) (λ m' pa. refl) inside last
read_across-read_within cpu m va (suc (suc (suc (suc k)))) el h lt inside last =
    absurd (omega arith)
