-- ===== src/Prelude/Keys.antt =====
-- Byte strings, decidable keys, and the state maps of the rollup.
use Prim.Native.Nat.{ℕ}
use mathlib.Core.Path.{◌≡◌, refl, ap}
use mathlib.Core.Logic.{◌↔◌, ◌≢◌}
use mathlib.Core.Bool.{Bool, true, false, ◌&&◌}
use mathlib.Core.List.{List, [], ◌∷◌}
use mathlib.Core.Option.{Option, none, some}
use native.Mathlib.Omega.{arith}
use obscura_network.Prelude.Tests.{nat_eq, nat_eq_iff, if◌then◌else◌}

-- `Vec<u8>` and `[u8; n]`: bytes as numbers.
abbrev pub Bytes : Type 0
Bytes = List ℕ

unfoldable pub bytes_eq : Bytes → Bytes → Bool
bytes_eq [] [] = true
bytes_eq [] (b ∷ bs) = false
bytes_eq (a ∷ l) [] = false
bytes_eq (a ∷ l) (b ∷ bs) = nat_eq a b && bytes_eq l bs

pub bytes_eq_sound : (l m : Bytes) → bytes_eq l m ≡ true → l ≡ m
unfolding bytes_eq
bytes_eq_sound [] [] h = refl
bytes_eq_sound [] (b ∷ m) h = cc
bytes_eq_sound (a ∷ l) [] h = cc
bytes_eq_sound (a ∷ l) (b ∷ m) h = ground (arith, bytes_eq_sound l m)

pub bytes_eq_self : (l : Bytes) → bytes_eq l l ≡ true
unfolding bytes_eq
bytes_eq_self [] = refl
bytes_eq_self (a ∷ l) = ground (arith, bytes_eq_self l)

pub bytes_eq_iff : (l m : Bytes) → (bytes_eq l m ≡ true) ↔ (l ≡ m)
bytes_eq_iff l m = (bytes_eq_sound l m, λ e. rw e (bytes_eq_self m))

pub bytes_eq_ne : (l m : Bytes) → bytes_eq l m ≡ false → l ≢ m
bytes_eq_ne l m h e = cc (bytes_eq_self l, ap (bytes_eq l) e)

-- `PartialEq` of a key type.
pub record Eq {ℓ} (A : Type ℓ) : Type ℓ where
  pub same : A → A → Bool
  pub same_iff : (a b : A) → (same a b ≡ true) ↔ (a ≡ b)

infix 50 ◌==◌
abbrev pub ◌==◌ {ℓ} : {A : Type ℓ} ⦃e : Eq A⦄ → A → A → Bool
◌==◌ ⦃e⦄ = e.same

instance abbrev pub ℕ_Eq : Eq ℕ
ℕ_Eq = record { same = nat_eq; same_iff = nat_eq_iff }

instance abbrev pub Bytes_Eq : Eq Bytes
Bytes_Eq = record { same = bytes_eq; same_iff = bytes_eq_iff }

-- `StateMap<K, V>`: what is stored under each key.
abbrev pub StateMap {ℓ κ} : Type ℓ → Type κ → Type (ℓ ⊔ κ)
StateMap K V = K → Option V

module _ {ℓ κ} {K : Type ℓ} {V : Type κ} where
  abbrev pub empty_map : StateMap K V
  empty_map k = none

  abbrev pub insert : ⦃e : Eq K⦄ → StateMap K V → K → V → StateMap K V
  insert ⦃e⦄ m k v j = if e.same k j then some v else m j

  pub insert_self : ⦃e : Eq K⦄ (m : StateMap K V) (k : K) (v : V) → insert m k v k ≡ some v
  insert_self ⦃e⦄ m k v = rw ((e.same_iff k k).1 refl)

  pub insert_ne : ⦃e : Eq K⦄ (m : StateMap K V) (k j : K) (v : V) → k ≢ j → insert m k v j ≡ m j
  insert_ne ⦃e⦄ m k j v h = ground (arith, e.same_iff k j)
