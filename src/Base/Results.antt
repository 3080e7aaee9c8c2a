-- ===== src/Base/Results.antt =====
-- Results of fallible code: a value, or an error of a type of the component's own.
use mathlib.Core.Path.{◌≡◌, refl}
use mathlib.Core.Logic.{◌⊎◌, inl, inr}

pub data Outcome {ℓ κ} (E : Type κ) (A : Type ℓ) : Type (ℓ ⊔ κ) where
  ok : A → Outcome E A
  err : E → Outcome E A

-- A failure stops the chain.
infixl 5 ◌>>=◌
abbrev pub ◌>>=◌ {ℓ κ μ} :
    {E : Type κ} {A : Type ℓ} {B : Type μ} → Outcome E A → (A → Outcome E B) → Outcome E B
err failure >>= next = err failure
ok value >>= next = next value

-- A chain that succeeds has passed both of its steps.
pub >>=-eq-ok {ℓ κ μ} :
    {E : Type κ} {A : Type ℓ} {B : Type μ} (first : Outcome E A) (next : A → Outcome E B) {out : B}
    → (first >>= next) ≡ ok out
    → (value : A) × (first ≡ ok value) × (next value ≡ ok out)
>>=-eq-ok (err failure) next h = cc
>>=-eq-ok (ok value) next h = (value, refl, h)

pub Outcome-cases {ℓ κ} :
    {E : Type κ} {A : Type ℓ} (o : Outcome E A) → ((a : A) × (o ≡ ok a)) ⊎ ((e : E) × (o ≡ err e))
Outcome-cases (ok a) = inl (a, refl)
Outcome-cases (err e) = inr (e, refl)
