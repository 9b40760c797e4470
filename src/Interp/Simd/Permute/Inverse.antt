-- ===== src/Interp/Simd/Permute/Inverse.antt =====
-- The unzips undo the zips.
use v.Base.{ℕ, zero, suc, ◌+◌, ◌-◌, ◌*◌, ◌/◌, ◌%◌, ◌<◌, ◌≡◌, refl, sym, ap, ◌∙◌, true, false, inl}
use v.Base.{inr}
use v.Base.{Option, some, List, [], ◌∷◌, ◌==◌, ltb, if◌then◌else◌, get_elem?, length}
use v.Base.{arith, Bool-cases}
use v.Base.Ensures.{Ensures, Ensures-some, Ensures-after, Ensures-bind}
use v.Interp.Simd.Permute.{collected, arranged}

-- What a loop that sets every element leaves.
record Tabulates (f : ℕ → Option ℕ) (n i : ℕ) (xs : List ℕ) : Type 0 where
  pub size : length xs ≡ n
  pub each : (j : ℕ) → j < n → get_elem? xs j ≡ f (i + j)

collected-Tabulates : (f : ℕ → Option ℕ) (n i : ℕ) → Ensures (Tabulates f n i) (collected f n i)
unfolding collected
collected-Tabulates f zero i =
    Ensures-some (record { size = refl; each = λ j lt. absurd (omega arith) })
collected-Tabulates f (suc n) i = Ensures-after (f i) _ λ r e.
    Ensures-bind _ _ (collected-Tabulates f n (i + 1))
      λ rest t. Ensures-some (record { size = ap suc t.size; each = entry r e rest t })
  where
    entry :
        (r : ℕ)
        → f i ≡ some r
        → (rest : List ℕ) → Tabulates f n (i + 1) rest
        → (j : ℕ) → j < suc n
        → get_elem? (r ∷ rest) j ≡ f (i + j)
    entry r e rest t zero lt = sym (ap f here ∙ e)
      where
        here : i + 0 ≡ i
        here = omega arith
    entry r e rest t (suc j) lt = t.each j (omega arith) ∙ ap f there
      where
        there : i + 1 + j ≡ i + suc j
        there = omega arith

collected_same :
    (f : ℕ → Option ℕ) (xs : List ℕ) (i : ℕ)
    → ((j : ℕ) → j < length xs → f (i + j) ≡ get_elem? xs j)
    → collected f (length xs) i ≡ some xs
unfolding collected
collected_same f [] i h = refl
collected_same f (x ∷ xs) i h = rw (first, collected_same f xs (i + 1) rest) refl
  where
    first : f i ≡ some x
    first = ap f (omega arith) ∙ h zero (omega arith)

    rest : (j : ℕ) → j < length xs → f (i + 1 + j) ≡ get_elem? xs j
    rest j lt = ap f (omega arith) ∙ h (suc j) (omega arith)

even_pick {ℓ} :
    {A : Type ℓ} (f g : ℕ → A) (k m : ℕ)
    → m ≡ 2 * k
    → (if m % 2 == 0 then f (m / 2) else g (m / 2)) ≡ f k
even_pick f g k m e = rw (parity, ap f half) refl
  where
    parity : (m % 2 == 0) ≡ true
    parity = ground arith

    half : m / 2 ≡ k
    half = omega arith

odd_pick {ℓ} :
    {A : Type ℓ} (f g : ℕ → A) (k m : ℕ)
    → m ≡ 2 * k + 1
    → (if m % 2 == 0 then f (m / 2) else g (m / 2)) ≡ g k
odd_pick f g k m e = rw (parity, ap g half) refl
  where
    parity : (m % 2 == 0) ≡ false
    parity = ground arith

    half : m / 2 ≡ k
    half = omega arith

-- What is picked below and above the middle is the whole.
rejoined {ℓ} :
    {A : Type ℓ} (whole lower upper : ℕ → A) (half middle m i : ℕ)
    → ((k : ℕ) → k < half → lower k ≡ whole k)
    → ((k : ℕ) → k < half → upper k ≡ whole (half + k))
    → middle ≡ half
    → m ≡ i
    → i < 2 * half
    → (if ltb m middle then lower m else upper (m - middle)) ≡ whole i
rejoined whole lower upper half middle m i l u mid same lt = elim (Bool-cases (ltb m middle)) [
  | inl e ↦ rw e (l m (below e) ∙ ap whole same)
  | inr e ↦ rw e (u (m - middle) (above e) ∙ ap whole (back e))
]
  where
    below : ltb m middle ≡ true → m < half
    below e = ground arith

    above : ltb m middle ≡ false → m - middle < half
    above e = ground arith

    back : ltb m middle ≡ false → half + (m - middle) ≡ i
    back e = ground arith

module _ (a b lo hi : List ℕ) (half : ℕ) (even : length a ≡ 2 * half)
    (zip1 : arranged 0b011 a b ≡ some lo) (zip2 : arranged 0b111 a b ≡ some hi) where
  low :
      Tabulates
        (λ i. if i % 2 == 0 then get_elem? a (i / 2) else get_elem? b (i / 2))
        (length a)
        0
        lo
  unfolding arranged
  low = (collected-Tabulates _ (length a) 0).at lo zip1

  high :
      Tabulates
        (λ i.
          if i % 2 == 0
          then get_elem? a (length a / 2 + i / 2)
          else get_elem? b (length a / 2 + i / 2))
        (length a)
        0
        hi
  unfolding arranged
  high = (collected-Tabulates _ (length a) 0).at hi zip2

  halves : length a / 2 ≡ half
  halves = omega arith

  lo_even : (k : ℕ) → k < half → get_elem? lo (2 * k) ≡ get_elem? a k
  lo_even k lt =
      low.each (2 * k) (omega arith)
      ∙ even_pick (get_elem? a) (get_elem? b) k (0 + 2 * k) (omega arith)

  hi_even : (k : ℕ) → k < half → get_elem? hi (2 * k) ≡ get_elem? a (half + k)
  hi_even k lt =
      high.each (2 * k) (omega arith)
      ∙ even_pick (λ j. get_elem? a (length a / 2 + j)) (λ j. get_elem? b (length a / 2 + j)) k
          (0 + 2 * k) (omega arith)
      ∙ ap (λ h. get_elem? a (h + k)) halves

  lo_odd : (k : ℕ) → k < half → get_elem? lo (2 * k + 1) ≡ get_elem? b k
  lo_odd k lt =
      low.each (2 * k + 1) (omega arith)
      ∙ odd_pick (get_elem? a) (get_elem? b) k (0 + (2 * k + 1)) (omega arith)

  hi_odd : (k : ℕ) → k < half → get_elem? hi (2 * k + 1) ≡ get_elem? b (half + k)
  hi_odd k lt =
      high.each (2 * k + 1) (omega arith)
      ∙ odd_pick (λ j. get_elem? a (length a / 2 + j)) (λ j. get_elem? b (length a / 2 + j)) k
          (0 + (2 * k + 1)) (omega arith)
      ∙ ap (λ h. get_elem? b (h + k)) halves

  first_result : arranged 0b001 lo hi ≡ some a
  unfolding arranged
  first_result = rw low.size (
      collected_same _ a 0 λ i lt.
        rejoined (get_elem? a) (λ k. get_elem? lo (2 * k)) (λ k. get_elem? hi (2 * k)) half
          (length a / 2) (0 + i) i lo_even hi_even halves (omega arith) (omega arith))

  second_result : length b ≡ length a → arranged 0b101 lo hi ≡ some b
  unfolding arranged
  second_result same =
      rw (low.size, sym same)
        (collected_same _ b 0 λ i lt.
          rejoined (get_elem? b) (λ k. get_elem? lo (2 * k + 1)) (λ k. get_elem? hi (2 * k + 1))
            half (length b / 2) (0 + i) i lo_odd hi_odd (ap (λ n. n / 2) same ∙ halves)
            (omega arith) (omega arith))

-- Let ZIP1 and ZIP2 of two registers with the same even number of lanes give two results. Then UZP1
-- of the results is the first register and UZP2 the second.
pub arranged-arranged :
    (a b lo hi : List ℕ) (half : ℕ)
    → length a ≡ 2 * half
    → length b ≡ length a
    → arranged 0b011 a b ≡ some lo
    → arranged 0b111 a b ≡ some hi
    → (arranged 0b001 lo hi ≡ some a) × (arranged 0b101 lo hi ≡ some b)
arranged-arranged a b lo hi half even same zip1 zip2 =
    (first_result a b lo hi half even zip1 zip2, second_result a b lo hi half even zip1 zip2 same)
