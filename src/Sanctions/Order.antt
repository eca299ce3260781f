-- ===== src/Sanctions/Order.antt =====
-- The order of byte arrays, which Rust compares byte by byte.
use obscura_network.Prelude.{
  ℕ, zero, suc, ◌<◌, ◌≡◌, refl, inl, inr, Bool, true, false, ◌&&◌, ◌||◌, [], ◌∷◌, Bytes, ltb,
  nat_eq, replicate, arith, Bool-cases,
}

unfoldable pub bytes_ltb : Bytes → Bytes → Bool
bytes_ltb [] [] = false
bytes_ltb [] (b ∷ m) = true
bytes_ltb (a ∷ l) [] = false
bytes_ltb (a ∷ l) (b ∷ m) = ltb a b || (nat_eq a b && bytes_ltb l m)

pub bytes_ltb_irrefl : (a : Bytes) → bytes_ltb a a ≡ false
unfolding bytes_ltb
bytes_ltb_irrefl [] = refl
bytes_ltb_irrefl (x ∷ a) = ground (arith, bytes_ltb_irrefl a)

pub bytes_ltb_trans :
    (a b c : Bytes) → bytes_ltb a b ≡ true → bytes_ltb b c ≡ true → bytes_ltb a c ≡ true
unfolding bytes_ltb
bytes_ltb_trans [] [] c p q = cc
bytes_ltb_trans [] (y ∷ b) [] p q = cc
bytes_ltb_trans [] (y ∷ b) (z ∷ c) p q = refl
bytes_ltb_trans (x ∷ a) [] c p q = cc
bytes_ltb_trans (x ∷ a) (y ∷ b) [] p q = cc
bytes_ltb_trans (x ∷ a) (y ∷ b) (z ∷ c) p q = ground (arith, bytes_ltb_trans a b c)

pub bytes_ltb_connected : (a b : Bytes) → bytes_ltb a b ≡ false → bytes_ltb b a ≡ false → a ≡ b
unfolding bytes_ltb
bytes_ltb_connected [] [] p q = refl
bytes_ltb_connected [] (y ∷ b) p q = cc
bytes_ltb_connected (x ∷ a) [] p q = cc
bytes_ltb_connected (x ∷ a) (y ∷ b) p q = ground (arith, bytes_ltb_connected a b)

-- `a` is not greater than `b`.
abbrev pub IsUpTo : Bytes → Bytes → Type 0
IsUpTo a b = bytes_ltb b a ≡ false

pub bytes_ltb-IsUpTo : (a b : Bytes) → bytes_ltb a b ≡ true → IsUpTo a b
bytes_ltb-IsUpTo a b h = elim (Bool-cases (bytes_ltb b a)) [
  | inl back ↦ absurd (cc (bytes_ltb_trans a b a h back, bytes_ltb_irrefl a))
  | inr p ↦ p
]

pub IsUpTo-lt : (a b c : Bytes) → IsUpTo a b → bytes_ltb b c ≡ true → bytes_ltb a c ≡ true
IsUpTo-lt a b c p q = elim (Bool-cases (bytes_ltb a b)) [
  | inl less ↦ bytes_ltb_trans a b c less q
  | inr same ↦ cc (bytes_ltb_connected a b same p, q)
]

pub lt-IsUpTo : (a b c : Bytes) → bytes_ltb a b ≡ true → IsUpTo b c → bytes_ltb a c ≡ true
lt-IsUpTo a b c p q = elim (Bool-cases (bytes_ltb b c)) [
  | inl less ↦ bytes_ltb_trans a b c p less
  | inr same ↦ cc (bytes_ltb_connected b c same q, p)
]

pub IsUpTo-trans : (a b c : Bytes) → IsUpTo a b → IsUpTo b c → IsUpTo a c
IsUpTo-trans a b c p q = elim (Bool-cases (bytes_ltb c a)) [
  | inl back ↦ cc (lt-IsUpTo c a b back p, q)
  | inr done ↦ done
]

-- A byte string of `n` bytes.
abbrev pub IsArray : ℕ → Bytes → Type 0
IsArray n [] = ◌≡◌ {A = ℕ} n 0
IsArray zero (x ∷ l) = ⊥
IsArray (suc n) (x ∷ l) = (x < 256) × IsArray n l

-- The array of the byte 0xff is the greatest.
pub IsUpTo-greatest : (n : ℕ) (l : Bytes) → IsArray n l → IsUpTo l (replicate n 255)
unfolding bytes_ltb
IsUpTo-greatest zero [] h = refl
IsUpTo-greatest (suc n) [] h = absurd (omega arith)
IsUpTo-greatest zero (x ∷ l) h = absurd h
IsUpTo-greatest (suc n) (x ∷ l) (p, h) = ground (arith, IsUpTo-greatest n l h)

pub IsArray-replicate : (n x : ℕ) → x < 256 → IsArray n (replicate n x)
IsArray-replicate zero x h = refl
IsArray-replicate (suc n) x h = (h, IsArray-replicate n x h)

-- The array of zeros is the least.
pub IsUpTo-least : (n : ℕ) (l : Bytes) → IsArray n l → IsUpTo (replicate n 0) l
unfolding bytes_ltb
IsUpTo-least zero [] h = refl
IsUpTo-least (suc n) [] h = absurd (omega arith)
IsUpTo-least zero (x ∷ l) h = absurd h
IsUpTo-least (suc n) (x ∷ l) (p, h) = ground (arith, IsUpTo-least n l h)
