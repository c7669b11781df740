-- ===== src/Base/Outcome.antt =====
-- Outcomes of C code: a result, or a fault such as a call of strcmp on NULL.
use mathlib.Core.Path.{◌≡◌, refl}
use mathlib.Core.Logic.{◌⊎◌, inl, inr}

pub data Run {ℓ} (A : Type ℓ) : Type ℓ where
  ok : A → Run A
  fault : Run A

infixl 5 ◌>>=◌
abbrev pub ◌>>=◌ {ℓ κ} : {A : Type ℓ} {B : Type κ} → Run A → (A → Run B) → Run B
ok a >>= f = f a
fault >>= f = fault

pub Run-cases {ℓ} : {A : Type ℓ} (r : Run A) → ((a : A) × (r ≡ ok a)) ⊎ (r ≡ fault)
Run-cases (ok a) = inl (a, refl)
Run-cases fault = inr refl

-- A predicate on the result; it says nothing of a fault.
abbrev pub OnOk {ℓ κ} : {A : Type ℓ} → (A → Type κ) → Run A → Type κ
OnOk P (ok a) = P a
OnOk P fault = Unit {κ}

-- The run ends with a result, and the result has the property.
abbrev pub Returns {ℓ} : {A : Type ℓ} → (A → Type 0) → Run A → Type 0
Returns P (ok a) = P a
Returns P fault = ⊥

pub OnOk-bind {ℓ κ μ} :
    {A : Type ℓ} {B : Type κ} (P : B → Type μ) (r : Run A) (f : A → Run B)
    → ((a : A) → r ≡ ok a → OnOk P (f a))
    → OnOk P (r >>= f)
OnOk-bind P (ok a) f h = h a refl
OnOk-bind P fault f h = tt

pub OnOk-eq {ℓ κ} : {A : Type ℓ} (P : A → Type κ) (r : Run A) {a : A} → OnOk P r → r ≡ ok a → P a
OnOk-eq P r h e = rw e at h
