-- ===== src/Base/Ensures.antt =====
-- What a step that may panic ensures of its result when it does not, one rule for each way to
-- build a step.
use mathlib.Core.Path.{◌≡◌, refl, subst}
use mathlib.Core.Bool.{Bool, true, false}
use mathlib.Core.Option.{Option, none, some}
use v.Base.Tests.{◌>>=◌, ◌>>◌, check, Result, ok, err, if◌then◌else◌}

-- Either the step panics, or its result has `P`.
pub record Ensures {ℓ κ} {A : Type ℓ} (P : A → Type κ) (m : Option A) : Type (ℓ ⊔ κ) where
  pub at : (a : A) → m ≡ some a → P a

pub Ensures-weaken {ℓ κ ι} :
    {A : Type ℓ} {P : A → Type κ} {Q : A → Type ι} {m : Option A}
    → Ensures P m
    → ((a : A) → P a → Q a)
    → Ensures Q m
Ensures-weaken h f = record { at = λ a e. f a (h.at a e) }

module _ {ℓ κ} {A : Type ℓ} {P : A → Type κ} where
  pub Ensures-some : {a : A} → P a → Ensures P (some a)
  Ensures-some {a} h = record { at = λ b e. subst P (some_injective e) h }
    where
      some_injective : {x y : A} → some x ≡ some y → x ≡ y
      some_injective e = cc

  pub Ensures-none : Ensures P none
  Ensures-none = record { at = λ b e. cc }

  pub Ensures-if :
      (b : Bool) (m n : Option A)
      → (b ≡ true → Ensures P m)
      → (b ≡ false → Ensures P n)
      → Ensures P (if b then m else n)
  Ensures-if true m n km kn = km refl
  Ensures-if false m n km kn = kn refl

  pub Ensures-check :
      (b : Bool) (m : Option A) → (b ≡ true → Ensures P m) → Ensures P (check b >> m)
  Ensures-check true m km = km refl
  Ensures-check false m km = Ensures-none

module _ {ℓ κ ι} {A : Type ℓ} {B : Type κ} {P : B → Type ι} where
  -- The rest may use what the first step returned.
  pub Ensures-after :
      (m : Option A) (f : A → Option B)
      → ((a : A) → m ≡ some a → Ensures P (f a))
      → Ensures P (m >>= f)
  Ensures-after none f kf = Ensures-none
  Ensures-after (some a) f kf = kf a refl

  -- The rest may use what the first step ensures.
  pub Ensures-bind {μ} :
      {Q : A → Type μ} (m : Option A) (f : A → Option B)
      → Ensures Q m
      → ((a : A) → Q a → Ensures P (f a))
      → Ensures P (m >>= f)
  Ensures-bind m f km kf = Ensures-after m f λ a e. kf a (km.at a e)

  pub Ensures-match :
      (m : Option A) (n : Option B) (f : A → Option B)
      → (m ≡ none → Ensures P n)
      → ((a : A) → m ≡ some a → Ensures P (f a))
      → Ensures P (elim m [ none ↦ n | some a ↦ f a ])
  Ensures-match none n f kn kf = kn refl
  Ensures-match (some a) n f kn kf = kf a refl

pub Ensures-result {ℓ κ ι μ} :
    {A : Type ℓ} {E : Type κ} {B : Type ι} {P : B → Type μ} (r : Result A E) (f : A → Option B)
    (g : E → Option B)
    → ((a : A) → r ≡ ok a → Ensures P (f a))
    → ((x : E) → r ≡ err x → Ensures P (g x))
    → Ensures P (elim r [ ok a ↦ f a | err x ↦ g x ])
Ensures-result (ok a) f g kf kg = kf a refl
Ensures-result (err x) f g kf kg = kg x refl
