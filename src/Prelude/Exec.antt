-- ===== src/Prelude/Exec.antt =====
-- A handler that mutates the state and may fail. What was written before a `bail!` stays written,
-- so the state comes back beside the error too; the framework discards it with the transaction.
use mathlib.Core.Path.{◌≡◌, refl, sym, ap}
use mathlib.Core.Bool.{Bool, true, false}
use obscura_network.Prelude.Outcome.{Result, ok, err}

abbrev pub Exec {ℓ κ μ} : Type κ → Type μ → Type ℓ → Type (ℓ ⊔ κ ⊔ μ)
Exec E S A = S → Result E A × S

module _ {ℓ κ μ ν} {E : Type κ} {S : Type μ} {A : Type ℓ} {B : Type ν} where
  abbrev pub continue : Result E A × S → (A → Exec E S B) → Result E B × S
  continue (ok a, s) f = f a s
  continue (err e, s) f = (err e, s)

  infixl 5 ◌>>=◌
  abbrev pub ◌>>=◌ : Exec E S A → (A → Exec E S B) → Exec E S B
  ◌>>=◌ m f s = continue (m s) f

module _ {ℓ κ μ} {E : Type κ} {S : Type μ} {B : Type ℓ} where
  infixl 5 ◌>>◌
  abbrev pub ◌>>◌ : Exec E S (Unit {0}) → Exec E S B → Exec E S B
  m >> k = m >>= λ _. k

module _ {ℓ κ μ} {E : Type κ} {S : Type μ} {A : Type ℓ} where
  abbrev pub pure : A → Exec E S A
  pure a s = (ok a, s)

  -- A computation that may fail and leaves the state alone.
  abbrev pub lift : Result E A → Exec E S A
  lift r s = (r, s)

  abbrev pub gets : (S → A) → Exec E S A
  gets f s = (ok (f s), s)

module _ {κ μ} {E : Type κ} {S : Type μ} where
  abbrev pub modify : (S → S) → Exec E S (Unit {0})
  modify f s = (ok tt, f s)

  -- `if !test { bail!(e) }`, where the test reads the state.
  abbrev pub require : (S → Bool) → E → Exec E S (Unit {0})
  require test e s = elim (test s) [ true ↦ (ok tt, s) | false ↦ (err e, s) ]

  pub require-ok :
      (test : S → Bool) (e : E) (s s' : S) (u : Unit {0})
      → require test e s ≡ (ok u, s')
      → (test s ≡ true) × (s' ≡ s)
  require-ok test e s s' u h = go (test s) refl
    where
      go : (b : Bool) → test s ≡ b → (test s ≡ true) × (s' ≡ s)
      go true q = (q, sym (ap (λ (r : Result E (Unit {0}) × S). r.1) (rw (q, require) at h)))
      go false q = absurd (cc (ap (λ (r : Result E (Unit {0}) × S). r.0) (rw (q, require) at h)))

module _ {ℓ κ μ ν} {E : Type κ} {S : Type μ} {A : Type ℓ} {B : Type ν} where
  -- Inversion of a successful sequence.
  pub bind-ok :
      (m : Exec E S A) (f : A → Exec E S B) (s : S) {b : B} {s' : S}
      → (m >>= f) s ≡ (ok b, s')
      → (a : A) × (s₁ : S) × (m s ≡ (ok a, s₁)) × (f a s₁ ≡ (ok b, s'))
  bind-ok m f s {b} {s'} h = go (m s) refl h
    where
      go :
          (r : Result E A × S)
          → m s ≡ r
          → continue r f ≡ (ok b, s')
          → (a : A) × (s₁ : S) × (m s ≡ (ok a, s₁)) × (f a s₁ ≡ (ok b, s'))
      go (ok a, s₁) e q = (a, s₁, e, q)
      go (err x, s₁) e q = absurd (cc (ap (λ (r : Result E B × S). r.0) q))
