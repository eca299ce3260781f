-- ===== src/Merkle/Binding.antt =====
-- A root, and the leaf at an index.
use obscura_network.Prelude.{
  ℕ, ◌/◌, ◌≡◌, refl, ◌∙◌, ◌⊎◌, inl, inr, List, [], ◌∷◌, ◌++◌, Bytes, length, arith, sym,
}
use obscura_network.Merkle.{climb, hash_step}
use obscura_network.Merkle.Inclusion.{
  Collision, All32, append-injective, hash_step-injective, length-hash_step,
}

-- To go on from a fact that holds but for a collision.
pub unless_collides {ℓ κ} :
    {A : Type ℓ} {B : Type κ} {sha256 : Bytes → Bytes}
    → A ⊎ Collision sha256
    → (A → B ⊎ Collision sha256)
    → B ⊎ Collision sha256
unless_collides (inl a) f = f a
unless_collides (inr c) f = inr c

module _ (sha256 : Bytes → Bytes) (sized : (x : Bytes) → length (sha256 x) ≡ 32) where
  -- Two paths of one length, at one index, that lead to one root, start at one leaf.
  pub climb-injective :
      (i : ℕ) (a b : Bytes) (xs ys : List Bytes)
      → length xs ≡ length ys
      → length a ≡ length b
      → All32 xs
      → All32 ys
      → climb sha256 i a xs ≡ climb sha256 i b ys
      → (a ≡ b) ⊎ Collision sha256
  unfolding climb
  climb-injective i a b [] [] n k p q h = inl h
  climb-injective i a b [] (y ∷ ys) n k p q h = absurd (omega arith)
  climb-injective i a b (x ∷ xs) [] n k p q h = absurd (omega arith)
  climb-injective i a b (x ∷ xs) (y ∷ ys) n k (px, p) (qy, q) h =
      unless_collides
        (climb-injective (i / 2) (hash_step sha256 i a x) (hash_step sha256 i b y) xs ys
          (omega arith)
          (length-hash_step sha256 sized i a x ∙ sym (length-hash_step sha256 sized i b y)) p q h)
        (λ e. hash_step-injective sha256 i a b x y k (px ∙ sym qy) e)

-- A hash whose inputs start with a tag.
abbrev pub tagged : (Bytes → Bytes) → Bytes → Bytes → Bytes
tagged sha256 tag x = sha256 (tag ++ x)

-- A collision of it is one of the hash.
pub Collision-tagged :
    (sha256 : Bytes → Bytes) (tag : Bytes) → Collision (tagged sha256 tag) → Collision sha256
Collision-tagged sha256 tag (x, y, ne, e) =
    (tag ++ x, tag ++ y, (λ q. ne (append-injective tag tag x y refl q).1), e)
