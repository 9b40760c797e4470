-- ===== src/Interp/MemAccess/Gather.antt =====
-- Gathering byte by byte: the rounds are enough, and inside a page the bytes make the same value as
-- one sized read.
use v.Base.{ℕ, zero, suc, ◌+◌, ◌-◌, ◌^◌, ◌<◌, ◌≤◌, ◌≡◌, refl, min}
use v.Base.{arith}
use v.Base.{true, false, none, some, ltb, ◌>>=◌, ltb→lt}
use v.Base.Chains.{bind_cong, match_cong, if_cong, check_cong}
use v.Cpu.State.{CpuState}
use v.Interp.Memory.{GuestMem}
use v.Interp.MemAccess.{page_end, xlate, gather_bytes, gather_from, gather}
use v.Interp.Mmu.Pages.{page_as_product}

page_end-lt : (cur : ℕ) → cur < 2 ^ 64 → cur < page_end cur
page_end-lt cur lt = omega (arith, page_as_product cur)

-- The next round starts after this one, inside the access and the address space.
pub chunk_bounds :
    (va n done : ℕ)
    → va + done < 2 ^ 64
    → done < n
    → ltb (page_end (va + done)) (2 ^ 64) ≡ true
    → let next = done + min (n - done) (page_end (va + done) - (va + done)) in
      (done < next) × (next ≤ n) × (va + next < 2 ^ 64)
chunk_bounds va n done lt more fits = ground (arith, page_end-lt (va + done) lt)

module _ (M : GuestMem) where
  open M use {Mem}

  gather_from-enough :
      (f g : ℕ) (cpu : CpuState) (mem : Mem) (va n el done val : ℕ)
      → va + done < 2 ^ 64
      → done ≤ n
      → n < done + f
      → n < done + g
      → gather_from M f cpu mem va n el done val ≡ gather_from M g cpu mem va n el done val
  unfolding gather_from
  gather_from-enough zero g cpu mem va n el done val lt le lf lg = absurd (omega arith)
  gather_from-enough (suc f) zero cpu mem va n el done val lt le lf lg = absurd (omega arith)
  gather_from-enough (suc f) (suc g) cpu mem va n el done val lt le lf lg =
      if_cong (ltb done n) _ _ _ λ more.
        check_cong (ltb (page_end (va + done)) (2 ^ 64)) _ _ λ fits.
          let b = chunk_bounds va n done lt (ltb→lt done n more) fits in
          bind_cong (xlate M cpu mem (va + done) false el) _ _ λ r. match_cong r.0 _ _ _ λ pa.
            bind_cong (gather_bytes M _ r.2 pa done val) _ _ λ s.
              gather_from-enough f g r.1 s.1 va n el _ s.0 b.2 b.1 (omega (arith, b))
                (omega (arith, b))

  -- With more rounds than bytes, any number of them gives the result of `gather`.
  pub gather_from-gather :
      (fuel : ℕ) (cpu : CpuState) (mem : Mem) (va n el : ℕ)
      → va < 2 ^ 64
      → n < fuel
      → gather_from M fuel cpu mem va n el 0 0 ≡ gather M cpu mem va n el
  unfolding gather
  gather_from-gather fuel cpu mem va n el lt le =
      gather_from-enough fuel (n + 1) cpu mem va n el 0 0 (omega arith) (omega arith) (omega arith)
        (omega arith)

  -- An access inside a page that is not the last takes one round.
  pub gather_once :
      (k : ℕ) (cpu : CpuState) (mem : Mem) (va n el : ℕ)
      → 0 < n
      → va + n ≤ page_end va
      → page_end va < 2 ^ 64
      → gather_from M (suc (suc k)) cpu mem va n el 0 0 ≡ (
          xlate M cpu mem va false el >>= λ r. elim r.0 [
            | none ↦ some (0, r.1, r.2)
            | some pa ↦ (gather_bytes M n r.2 pa 0 0 >>= λ s. some (s.0, r.1, s.1))
          ])
  unfolding gather_from
  gather_once k cpu mem va n el pos inside last =
      rw (more, zero_more, fits)
        (bind_cong (xlate M cpu mem va false el) _ _ λ r.
          match_cong r.0 _ _ _
            λ pa. rw whole (bind_cong (gather_bytes M n r.2 pa 0 0) _ _ λ s. rw over refl))
    where
      more : ltb 0 n ≡ true
      more = ground arith

      zero_more : va + 0 ≡ va
      zero_more = omega arith

      fits : ltb (page_end va) (2 ^ 64) ≡ true
      fits = ground arith

      whole : min (n - 0) (page_end (va + 0) - (va + 0)) ≡ n
      whole = rw zero_more (ground arith)

      over : ltb (0 + n) n ≡ false
      over = ground arith
