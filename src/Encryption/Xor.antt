-- ===== src/Encryption/Xor.antt =====
-- The stream cipher, applied twice.
use native.Mathlib.Nat.{pow-suc}
use obscura_network.Prelude.{
  ℕ, zero, suc, ◌+◌, ◌*◌, ◌/◌, ◌%◌, ◌^◌, ◌≤◌, ◌<◌, ◌≡◌, ◌⊎◌, refl, sym, ap, ap₂, ◌∙◌, inl, inr, [],
  ◌∷◌, ◌++◌, Bytes, length, length-append, take, drop, take_all, leb, arith, Bool-cases,
}
use obscura_network.Mpt.RoundTrip.{take-length, drop-length}
use obscura_network.Mpt.Items.{length-drop}
use obscura_network.Mpt.Lists.{append_nil}
use obscura_network.Encryption.{xor, xor_block, stream_loop, stream_xor}

xor-xor : (bits a b : ℕ) → a < 2 ^ bits → xor bits (xor bits a b) b ≡ a
unfolding xor
xor-xor zero a b h = omega arith
xor-xor (suc bits) a b h =
    let rest = xor-xor bits (a / 2) (b / 2) (omega (arith, pow-suc 2 bits)) in
    let half : ((a % 2 + b % 2) % 2 + 2 * xor bits (a / 2) (b / 2)) / 2 ≡ xor bits (a / 2) (b / 2) =
      omega arith in
    omega (arith, ap (λ c. xor bits c (b / 2)) half, rest)

-- All of a list are bytes.
abbrev pub AreBytes : Bytes → Type 0
AreBytes [] = Unit {0}
AreBytes (x ∷ l) = (x < 256) × AreBytes l

xor_block-xor_block : (l k : Bytes) → AreBytes l → xor_block (xor_block l k) k ≡ l
unfolding xor_block
xor_block-xor_block [] k a = refl
xor_block-xor_block (x ∷ l) [] (p, a) = ap (λ m. x ∷ m) (xor_block-xor_block l [] a)
xor_block-xor_block (x ∷ l) (y ∷ k) (p, a) =
    ap₂ (λ z m. z ∷ m) (xor-xor 8 x y p) (xor_block-xor_block l k a)

length-xor_block : (l k : Bytes) → length (xor_block l k) ≡ length l
unfolding xor_block
length-xor_block [] k = refl
length-xor_block (x ∷ l) [] = ap suc (length-xor_block l [])
length-xor_block (x ∷ l) (y ∷ k) = ap suc (length-xor_block l k)

-- A list cut after 32 bytes, or before them at its end.
abbrev IsCut : Bytes → Bytes → Type 0
IsCut p r = (length p ≡ 32) ⊎ ((length p ≤ 32) × (r ≡ []))

drop_all : (n : ℕ) (l : Bytes) → length l ≤ n → drop n l ≡ []
drop_all zero [] h = refl
drop_all zero (x ∷ l) h = absurd (omega arith)
drop_all (suc n) [] h = refl
drop_all (suc n) (x ∷ l) h = drop_all n l (omega arith)

IsCut-split : (p r : Bytes) → IsCut p r → (take 32 (p ++ r) ≡ p) × (drop 32 (p ++ r) ≡ r)
IsCut-split p r (inl e) = (
  ap (λ n. take n (p ++ r)) (sym e) ∙ take-length p r,
  ap (λ n. drop n (p ++ r)) (sym e) ∙ drop-length p r,
)
IsCut-split p r (inr (h, e)) =
    let whole : p ++ r ≡ p = ap (λ m. p ++ m) e ∙ append_nil p in
    (ap (take 32) whole ∙ take_all 32 p h, ap (drop 32) whole ∙ (drop_all 32 p h ∙ sym e))

take-drop : (n : ℕ) (l : Bytes) → take n l ++ drop n l ≡ l
take-drop zero l = refl
take-drop (suc n) [] = refl
take-drop (suc n) (x ∷ l) = ap (λ m. x ∷ m) (take-drop n l)

length_of_take : (n : ℕ) (l : Bytes) → n ≤ length l → length (take n l) ≡ n
length_of_take zero l h = refl
length_of_take (suc n) [] h = absurd (omega arith)
length_of_take (suc n) (x ∷ l) h = ap suc (length_of_take n l (omega arith))

take-AreBytes : (n : ℕ) (l : Bytes) → AreBytes l → AreBytes (take n l)
take-AreBytes zero l a = tt
take-AreBytes (suc n) [] a = tt
take-AreBytes (suc n) (x ∷ l) (p, a) = (p, take-AreBytes n l a)

drop-AreBytes : (n : ℕ) (l : Bytes) → AreBytes l → AreBytes (drop n l)
drop-AreBytes zero l a = a
drop-AreBytes (suc n) [] a = tt
drop-AreBytes (suc n) (x ∷ l) (p, a) = drop-AreBytes n l a

module _ (sha256 : Bytes → Bytes) where
  abbrev block_at : ℕ → Bytes → Bytes
  block_at i key = sha256 (b'k' ∷ (b's' ∷ (key ++ (i ∷ []))))

  stream_nil : (fuel i : ℕ) (key : Bytes) → stream_loop sha256 fuel i [] key ≡ []
  unfolding stream_loop
  stream_nil zero i key = refl
  stream_nil (suc fuel) i key = refl

  stream_step :
      (fuel i : ℕ) (l key : Bytes)
      → 0 < length l
      → stream_loop sha256 (suc fuel) i l key
        ≡ xor_block (take 32 l) (block_at i key)
          ++ stream_loop sha256 fuel ((i + 1) % 256) (drop 32 l) key
  unfolding stream_loop
  stream_step fuel i [] key h = absurd (omega arith)
  stream_step fuel i (x ∷ l) key h = refl

  -- What the first round gives and what the others give meet at 32 bytes, or at the end.
  stream-IsCut :
      (fuel i j : ℕ) (l key : Bytes)
      → IsCut (xor_block (take 32 l) (block_at i key)) (stream_loop sha256 fuel j (drop 32 l) key)
  stream-IsCut fuel i j l key = elim (Bool-cases (leb 32 (length l))) [
    | inl long ↦
        inl (
          length-xor_block (take 32 l) (block_at i key)
          ∙ length_of_take 32 l (ground (arith, long)))
    | inr short ↦
        let few : length l ≤ 32 = ground (arith, short) in
        inr (
          omega
              (arith, length-xor_block (take 32 l) (block_at i key), ap length (take_all 32 l few)),
          ap (λ m. stream_loop sha256 fuel j m key) (drop_all 32 l few) ∙ stream_nil fuel j key,
        )
  ]

  length-stream_loop :
      (fuel i : ℕ) (l key : Bytes)
      → length l ≤ fuel
      → length (stream_loop sha256 fuel i l key) ≡ length l
  length-stream_loop fuel i [] key h = ap length (stream_nil fuel i key)
  length-stream_loop zero i (x ∷ l) key h = absurd (omega arith)
  length-stream_loop (suc fuel) i (x ∷ l) key h =
      let d = x ∷ l in
      let j = (i + 1) % 256 in
      ap length (stream_step fuel i d key (omega arith))
      ∙ omega (
        arith,
        length-append (xor_block (take 32 d) (block_at i key))
            (stream_loop sha256 fuel j (drop 32 d) key),
        length-xor_block (take 32 d) (block_at i key),
        length-stream_loop fuel j (drop 32 d) key (omega (arith, length-drop 32 d)),
        ap length (take-drop 32 d),
        length-append (take 32 d) (drop 32 d),
      )

  stream_loop-stream_loop :
      (fuel i : ℕ) (l key : Bytes)
      → length l ≤ fuel
      → AreBytes l
      → stream_loop sha256 fuel i (stream_loop sha256 fuel i l key) key ≡ l
  stream_loop-stream_loop fuel i [] key h a =
      ap (λ m. stream_loop sha256 fuel i m key) (stream_nil fuel i key) ∙ stream_nil fuel i key
  stream_loop-stream_loop zero i (x ∷ l) key h a = absurd (omega arith)
  stream_loop-stream_loop (suc fuel) i (x ∷ l) key h a =
      let d = x ∷ l in
      let j = (i + 1) % 256 in
      let p = xor_block (take 32 d) (block_at i key) in
      let r = stream_loop sha256 fuel j (drop 32 d) key in
      let first = stream_step fuel i d key (omega arith) in
      let (kept, rest) = IsCut-split p r (stream-IsCut fuel i j d key) in
      let some : 0 < length (p ++ r) =
        omega (arith, ap length first, length-stream_loop (suc fuel) i d key h) in
      ap (λ m. stream_loop sha256 (suc fuel) i m key) first
      ∙ (stream_step fuel i (p ++ r) key some
          ∙ (ap₂ (λ u v. xor_block u (block_at i key) ++ stream_loop sha256 fuel j v key) kept rest
              ∙ (ap₂ (λ u v. u ++ v)
                    (xor_block-xor_block (take 32 d) (block_at i key) (take-AreBytes 32 d a))
                    (stream_loop-stream_loop fuel j (drop 32 d) key
                      (omega (arith, length-drop 32 d)) (drop-AreBytes 32 d a))
                  ∙ take-drop 32 d)))

  pub length-stream_xor : (l key : Bytes) → length (stream_xor sha256 l key) ≡ length l
  unfolding stream_xor
  length-stream_xor l key = length-stream_loop (length l) 0 l key (omega arith)

  -- The keystream taken twice gives the data back.
  pub stream_xor-stream_xor :
      (l key : Bytes) → AreBytes l → stream_xor sha256 (stream_xor sha256 l key) key ≡ l
  unfolding stream_xor
  stream_xor-stream_xor l key a =
      ap (λ n. stream_loop sha256 n 0 (stream_loop sha256 (length l) 0 l key) key)
        (length-stream_loop (length l) 0 l key (omega arith))
      ∙ stream_loop-stream_loop (length l) 0 l key (omega arith) a
