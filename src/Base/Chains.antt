-- ===== src/Base/Chains.antt =====
-- Equations between chains of steps that may panic, one for each way to build a step.
use v.Base.Tests.{◌>>=◌, ◌>>◌, check, Result, ok, err, if◌then◌else◌}
use mathlib.Core.Path.{◌≡◌, refl}
use mathlib.Core.Bool.{Bool, true, false}
use mathlib.Core.Option.{Option, none, some}

-- A chain whose end is continued is the chain with each end continued.
pub bind_along {ℓ κ ι} :
    {A : Type ℓ} {B : Type κ} {C : Type ι} (m : Option A) (f : A → Option C) (g : A → Option B)
    (h : B → Option C)
    → ((a : A) → m ≡ some a → f a ≡ (g a >>= h))
    → (m >>= f) ≡ ((m >>= g) >>= h)
bind_along none f g h e = refl
bind_along (some a) f g h e = e a refl

pub result_along {ℓ κ ι μ} :
    {A : Type ℓ} {E : Type κ} {B : Type ι} {C : Type μ} (r : Result A E) (f : A → Option C)
    (f' : A → Option B) (g : E → Option C) (g' : E → Option B) (h : B → Option C)
    → ((a : A) → f a ≡ (f' a >>= h))
    → ((x : E) → g x ≡ (g' x >>= h))
    → (elim r [ ok a ↦ f a | err x ↦ g x ]) ≡ ((elim r [ ok a ↦ f' a | err x ↦ g' x ]) >>= h)
result_along (ok a) f f' g g' h e e' = e a
result_along (err x) f f' g g' h e e' = e' x

pub option_along {ℓ κ ι} :
    {A : Type ℓ} {B : Type κ} {C : Type ι} (o : Option A) (f : A → Option C) (f' : A → Option B)
    (n : Option C) (n' : Option B) (h : B → Option C)
    → ((a : A) → f a ≡ (f' a >>= h))
    → n ≡ (n' >>= h)
    → (elim o [ some a ↦ f a | none ↦ n ]) ≡ ((elim o [ some a ↦ f' a | none ↦ n' ]) >>= h)
option_along (some a) f f' n n' h e e' = e a
option_along none f f' n n' h e e' = e'

-- Chains that agree from some step on.
pub bind_cong {ℓ κ} :
    {A : Type ℓ} {B : Type κ} (m : Option A) (f g : A → Option B)
    → ((a : A) → f a ≡ g a)
    → (m >>= f) ≡ (m >>= g)
bind_cong none f g h = refl
bind_cong (some a) f g h = h a

pub match_cong {ℓ κ} :
    {A : Type ℓ} {B : Type κ} (o : Option A) (n : B) (f g : A → B)
    → ((a : A) → f a ≡ g a)
    → (elim o [ some a ↦ f a | none ↦ n ]) ≡ (elim o [ some a ↦ g a | none ↦ n ])
match_cong none n f g h = refl
match_cong (some a) n f g h = h a

pub if_cong {ℓ} :
    {A : Type ℓ} (b : Bool) (x y z : A)
    → (b ≡ true → x ≡ y)
    → (if b then x else z) ≡ (if b then y else z)
if_cong true x y z h = h refl
if_cong false x y z h = refl

pub check_cong {ℓ} :
    {A : Type ℓ} (b : Bool) (x y : Option A) → (b ≡ true → x ≡ y) → (check b >> x) ≡ (check b >> y)
check_cong true x y h = h refl
check_cong false x y h = refl
