-- ===== src/Platform/Gic/Scan.antt =====
-- The scan finds the interrupt that the architecture asks for: among the enabled and pending ones
-- the lowest priority value, and the lowest identifier among equals.
use v.Base.{ℕ, zero, suc, ◌+◌, ◌≤◌, ◌<◌, ◌≡◌, ◌⊎◌, inl, inr, refl, sym, ap, Bool, true, false}
use v.Base.{◌&&◌, Option, none, some, arith}
use v.Base.{ltb, Bool-cases}
use mathlib.Core.Path.{subst}
use native.Mathlib.Nat.{add-zero}
use v.Platform.Gic.{Gic, num_irqs, better, scan_from, scan_pending}

module _ (enabled pending : ℕ → Bool) (priority : ℕ → ℕ) where
  -- `best` is what a scan of the identifiers below `n` should find.
  abbrev pub IsHighest : ℕ → Option (ℕ × ℕ) → Type 0
  IsHighest n none = (j : ℕ) → j < n → (enabled j && pending j) ≡ false
  IsHighest n (some (id, p)) =
      (id < n)
      × ((enabled id && pending id) ≡ true)
      × (p ≡ priority id)
      × ((j : ℕ)
          → j < n
          → (enabled j && pending j) ≡ true
          → (p < priority j) ⊎ ((p ≡ priority j) × (id ≤ j)))

  abbrev live : ℕ → Bool
  live j = enabled j && pending j

  last_or_below : (n j : ℕ) → j < n + 1 → (j ≡ n) ⊎ (j < n)
  last_or_below n j h = ground arith

  -- What a scan has to say of `n` and of what lies below, when `n` is not live or does not win.
  keep_best :
      (n id p : ℕ)
      → (live n ≡ true → (p < priority n) ⊎ ((p ≡ priority n) × (id ≤ n)))
      → IsHighest n (some (id, p))
      → IsHighest (n + 1) (some (id, p))
  keep_best n id p new (lt, alive, at, least) = (
    omega arith,
    alive,
    at,
    λ j jlt jlive. elim (last_or_below n j jlt) [
      | inl e ↦
          subst (λ k. live k ≡ true → (p < priority k) ⊎ ((p ≡ priority k) × (id ≤ k))) (sym e) new
            jlive
      | inr below ↦ least j below jlive
    ],
  )

  -- `n` wins over all that lies below.
  take_last :
      (n : ℕ)
      → live n ≡ true
      → ((j : ℕ) → j < n → live j ≡ true → priority n < priority j)
      → IsHighest (n + 1) (some (n, priority n))
  take_last n alive smaller = (
    omega arith,
    alive,
    refl,
    λ j jlt jlive. elim (last_or_below n j jlt) [
      | inl e ↦ inr (ap priority (sym e), omega arith)
      | inr below ↦ inl (smaller j below jlive)
    ],
  )

  better-IsHighest :
      (n : ℕ) (best : Option (ℕ × ℕ))
      → IsHighest n best
      → IsHighest (n + 1) (better enabled pending priority n best)
  unfolding better
  better-IsHighest n none h = elim (Bool-cases (live n)) [
    | inl alive ↦ rw alive (take_last n alive (λ j jlt jlive. ground (arith, h j)))
    | inr dead ↦ rw dead (λ j jlt. ground (arith, last_or_below n j, h j))
  ]
  better-IsHighest n (some (id, p)) h = elim (Bool-cases (live n && ltb (priority n) p)) [
    | inl wins ↦ rw wins (take_last n (ground arith) (λ j jlt jlive. ground (arith, h.3 j)))
    | inr loses ↦ rw loses (keep_best n id p (λ alive. ground arith) h)
  ]

  scan_from-IsHighest :
      (left n : ℕ) (best : Option (ℕ × ℕ))
      → IsHighest n best
      → IsHighest (n + left) (scan_from enabled pending priority left n best)
  unfolding scan_from
  scan_from-IsHighest zero n best h = rw add-zero h
  scan_from-IsHighest (suc left) n best h = rw (← moved) (
      scan_from-IsHighest left (n + 1) (better enabled pending priority n best)
        (better-IsHighest n best h))
    where
      moved : n + 1 + left ≡ n + suc left
      moved = omega arith

-- The scan of gic.rs finds the interrupt that should be delivered next: one that is enabled and
-- pending, of the lowest priority value of all such, and of the lowest identifier among those of
-- that value; and it finds none only if no interrupt is enabled and pending.
pub scan_pending-IsHighest :
    (g : Gic) → IsHighest g.enabled g.pending g.priority num_irqs (scan_pending g)
unfolding scan_pending
scan_pending-IsHighest g =
    scan_from-IsHighest g.enabled g.pending g.priority num_irqs 0 none (λ j h. absurd (omega arith))
