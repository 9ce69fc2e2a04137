-- ===== src/Common/Results.antt =====
-- Go's `(value, error)` pair, with the chain of early returns as a `do` block.
use mathlib.Core.Path.{◌≡◌, refl}
use mathlib.Core.Logic.{◌⊎◌, inl, inr}
use mathlib.Core.Bool.{Bool, true, false}
use myhomework.Common.Tests.{if◌then◌else◌}

pub data Result {ℓ κ} (E : Type ℓ) (A : Type κ) : Type (ℓ ⊔ κ) where
  ok : A → Result E A
  err : E → Result E A

infixl 5 ◌>>=◌
abbrev pub ◌>>=◌ {ℓ κ μ} :
    {E : Type ℓ} {A : Type κ} {B : Type μ} → Result E A → (A → Result E B) → Result E B
ok value >>= next = next value
err e >>= next = err e

pub Result-cases {ℓ κ} :
    {E : Type ℓ} {A : Type κ} (r : Result E A) → ((a : A) × (r ≡ ok a)) ⊎ ((e : E) × (r ≡ err e))
Result-cases (ok a) = inl (a, refl)
Result-cases (err e) = inr (e, refl)

-- If there is a value, it has the property.
abbrev pub Ensures {ℓ κ μ} : {E : Type ℓ} {A : Type κ} → (A → Type μ) → Result E A → Type μ
Ensures P (ok a) = P a
Ensures P (err e) = Unit

pub Ensures-bind {ℓ κ ν μ ξ} :
    {E : Type ℓ} {A : Type κ} {B : Type ν} (P : A → Type μ) (Q : B → Type ξ) (m : Result E A)
    (f : A → Result E B)
    → Ensures P m
    → ((a : A) → P a → Ensures Q (f a))
    → Ensures Q (m >>= f)
Ensures-bind P Q (ok a) f h hf = hf a h
Ensures-bind P Q (err e) f h hf = tt

pub of_Ensures {ℓ κ μ} :
    {E : Type ℓ} {A : Type κ} (P : A → Type μ) (r : Result E A) (a : A)
    → Ensures P r
    → r ≡ ok a
    → P a
of_Ensures P r a h e = rw e at h

pub Ensures-if {ℓ κ μ} :
    {E : Type ℓ} {A : Type κ} (P : A → Type μ) (b : Bool) (m n : Result E A)
    → Ensures P m
    → Ensures P n
    → Ensures P (if b then m else n)
Ensures-if P true m n hm hn = hm
Ensures-if P false m n hm hn = hn

pub any_value {ℓ κ} : {E : Type ℓ} {A : Type κ} (r : Result E A) → Ensures (λ _. Unit {0}) r
any_value (ok a) = tt
any_value (err e) = tt

abbrev pub Fails {ℓ κ} : {E : Type ℓ} {A : Type κ} → Result E A → Type 0
Fails (ok a) = ⊥
Fails (err e) = Unit

pub Fails-bind {ℓ κ ν μ} :
    {E : Type ℓ} {A : Type κ} {B : Type ν} (P : A → Type μ) (m : Result E A) (f : A → Result E B)
    → Ensures P m
    → ((a : A) → P a → Fails (f a))
    → Fails (m >>= f)
Fails-bind P (ok a) f h hf = hf a h
Fails-bind P (err e) f h hf = tt

pub error_of {ℓ κ} : {E : Type ℓ} {A : Type κ} (r : Result E A) → Fails r → (e : E) × (r ≡ err e)
error_of (ok a) h = absurd h
error_of (err e) h = (e, refl)

pub never_of_Fails {ℓ κ} : {E : Type ℓ} {A : Type κ} (r : Result E A) → Fails r → Ensures (λ _. ⊥) r
never_of_Fails (ok a) f = f
never_of_Fails (err e) f = tt
