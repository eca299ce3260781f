-- ===== src/Prelude/Outcome.antt =====
-- `anyhow::Result` over an error type of the module's own.
use mathlib.Core.Path.{◌≡◌, refl, ap, subst}
use mathlib.Core.Logic.{◌⊎◌, inl, inr}
use mathlib.Core.Bool.{Bool, true, false}

pub data Result {ℓ κ} (E : Type κ) (A : Type ℓ) : Type (ℓ ⊔ κ) where
  ok : A → Result E A
  err : E → Result E A

-- `if !b { bail!(e) }`
abbrev pub guard {κ} : {E : Type κ} → Bool → E → Result E (Unit {0})
guard b e = elim b [ false ↦ err e | true ↦ ok tt ]

-- The `?` operator.
module _ {ℓ κ μ} {E : Type κ} {A : Type ℓ} {B : Type μ} where
  infixl 5 ◌>>=◌
  abbrev pub ◌>>=◌ : Result E A → (A → Result E B) → Result E B
  err e >>= f = err e
  ok a >>= f = f a

module _ {ℓ κ} {E : Type κ} {B : Type ℓ} where
  infixl 5 ◌>>◌
  abbrev pub ◌>>◌ : Result E (Unit {0}) → Result E B → Result E B
  first >> second = first >>= λ _. second

pub Result-cases {ℓ κ} :
    {E : Type κ} {A : Type ℓ} (r : Result E A) → ((a : A) × (r ≡ ok a)) ⊎ ((e : E) × (r ≡ err e))
Result-cases (ok a) = inl (a, refl)
Result-cases (err e) = inr (e, refl)

-- What holds of the value, if there is one.
pub data Ensures {ℓ κ μ} {E : Type κ} {A : Type ℓ} (P : A → Type μ)
    : Result E A → Type (ℓ ⊔ κ ⊔ μ) where
  returns : (a : A) → P a → Ensures P (ok a)
  fails : (e : E) → Ensures P (err e)

abbrev value_or {ℓ κ} : {E : Type κ} {A : Type ℓ} → Result E A → A → A
value_or (ok a) d = a
value_or (err e) d = d

pub ok_cancel {ℓ κ} :
    {E : Type κ} {A : Type ℓ} {a b : A} → ◌≡◌ {A = Result E A} (ok a) (ok b) → a ≡ b
ok_cancel {a = a} e = ap (λ r. value_or r a) e

pub Ensures-use {ℓ κ μ} :
    {E : Type κ} {A : Type ℓ} {P : A → Type μ} {r : Result E A} (a : A)
    → Ensures P r
    → r ≡ ok a
    → P a
Ensures-use {P = P} a (returns b p) e = subst P (ap (λ r. value_or r a) e) p
Ensures-use a (fails x) e = absurd (cc)

-- The rest of the block may use that what stands before it succeeded.
pub Ensures-bind {ℓ κ μ ν} :
    {E : Type κ} {A : Type ℓ} {B : Type ν} {P : B → Type μ} (m : Result E A) (f : A → Result E B)
    → ((a : A) → m ≡ ok a → Ensures P (f a))
    → Ensures P (m >>= f)
Ensures-bind (ok a) f h = h a refl
Ensures-bind (err e) f h = fails e

pub Ensures-guard {ℓ κ μ} :
    {E : Type κ} {A : Type ℓ} {P : A → Type μ} (b : Bool) (e : E) (r : Result E A)
    → (b ≡ true → Ensures P r)
    → Ensures P (guard b e >> r)
Ensures-guard true e r h = h refl
Ensures-guard false e r h = fails e
