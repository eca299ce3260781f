-- ===== src/Merkle/Inclusion.antt =====
-- `MerkleProof::verify`, and the leaves of the tree over all commitments.
use native.Mathlib.Nat.{pow-suc}
use obscura_network.Prelude.{
  ℕ, zero, suc, ◌+◌, ◌-◌, ◌*◌, ◌/◌, ◌%◌, ◌^◌, ◌≡◌, ◌≢◌, refl, sym, ap, ap₂, ◌∙◌, ◌⊎◌, inl, inr,
  List, [], ◌∷◌, ◌++◌, Bytes, bytes_eq, bytes_eq_sound, bytes_eq_ne, length, nat_eq, Bool-cases,
  arith, if◌then◌else◌,
}
use obscura_network.Merkle.{hash_pair, hash_step, climb}
use obscura_network.Merkle.Tree.{node, leaves_of}
use obscura_network.Merkle.Insert.{shr}

-- Two different inputs with one hash.
abbrev pub Collision : (Bytes → Bytes) → Type 0
Collision sha256 = (x : Bytes) × (y : Bytes) × (x ≢ y) × (sha256 x ≡ sha256 y)

-- The sibling of node `i`.
abbrev pub sibling : ℕ → ℕ
sibling i = if nat_eq (i % 2) 0 then i + 1 else i - 1

abbrev pub All32 : List Bytes → Type 0
All32 [] = Unit {0}
All32 (x ∷ l) = (length x ≡ 32) × All32 l

module _ (sha256 : Bytes → Bytes) where
  -- The siblings of the path from node `i` of a level upwards.
  unfoldable pub siblings_of : (ℕ → Bytes) → ℕ → ℕ → ℕ → List Bytes
  siblings_of leaves zero level i = []
  siblings_of leaves (suc rounds) level i =
      node sha256 leaves level (sibling i) ∷ siblings_of leaves rounds (suc level) (i / 2)

  hash_step-node :
      (leaves : ℕ → Bytes) (level i : ℕ)
      → hash_step sha256 i (node sha256 leaves level i) (node sha256 leaves level (sibling i))
        ≡ node sha256 leaves (suc level) (i / 2)
  unfolding hash_step node
  hash_step-node leaves level i = elim (Bool-cases (nat_eq (i % 2) 0)) [
    | inl even ↦
        rw (even, hash_step)
          (ap₂ (λ a b. hash_pair sha256 (node sha256 leaves level a) (node sha256 leaves level b))
            (ground arith) (ground arith))
    | inr odd ↦
        rw (odd, hash_step)
          (ap₂ (λ a b. hash_pair sha256 (node sha256 leaves level a) (node sha256 leaves level b))
            (ground arith) (ground arith))
  ]

  pub climb-siblings_of :
      (leaves : ℕ → Bytes) (rounds level depth i : ℕ)
      → level + rounds ≡ depth
      → climb sha256 i (node sha256 leaves level i) (siblings_of leaves rounds level i)
        ≡ node sha256 leaves depth (shr rounds i)
  unfolding climb siblings_of
  climb-siblings_of leaves zero level depth i e = ap (λ l. node sha256 leaves l i) (omega arith)
  climb-siblings_of leaves (suc rounds) level depth i e =
      ap (λ c. climb sha256 (i / 2) c (siblings_of leaves rounds (suc level) (i / 2)))
        (hash_step-node leaves level i)
      ∙ climb-siblings_of leaves rounds (suc level) depth (i / 2) (omega arith)

pub append-injective : (a b c d : Bytes) → length a ≡ length b → a ++ c ≡ b ++ d → (a ≡ b) × (c ≡ d)
append-injective [] [] c d e h = (refl, h)
append-injective [] (y ∷ b) c d e h = absurd (omega arith)
append-injective (x ∷ a) [] c d e h = absurd (omega arith)
append-injective (x ∷ a) (y ∷ b) c d e h =
    let (p, q) = append-injective a b c d (omega arith) (ground arith) in (ground arith, q)

module _ (sha256 : Bytes → Bytes) where
  -- Pairs of nodes with one hash are one pair, or show a collision.
  pub hash_pair-injective :
      (a b c d : Bytes)
      → length a ≡ length b
      → hash_pair sha256 a c ≡ hash_pair sha256 b d
      → ((a ≡ b) × (c ≡ d)) ⊎ Collision sha256
  unfolding hash_pair
  hash_pair-injective a b c d e h = elim (Bool-cases (bytes_eq (a ++ c) (b ++ d))) [
    | inl same ↦ inl (append-injective a b c d e (bytes_eq_sound _ _ same))
    | inr differ ↦ inr (a ++ c, b ++ d, (λ q. bytes_eq_ne _ _ differ q), h)
  ]

  pub hash_step-injective :
      (i : ℕ) (a b c d : Bytes)
      → length a ≡ length b
      → length c ≡ length d
      → hash_step sha256 i a c ≡ hash_step sha256 i b d
      → (a ≡ b) ⊎ Collision sha256
  unfolding hash_step
  hash_step-injective i a b c d e k h = elim (Bool-cases (nat_eq (i % 2) 0)) [
    | inl even ↦ left_of (hash_pair-injective a b c d e (rw (even, hash_step) at h))
    | inr odd ↦ right_of (hash_pair-injective c d a b k (rw (odd, hash_step) at h))
  ]
    where
      left_of : ((a ≡ b) × (c ≡ d)) ⊎ Collision sha256 → (a ≡ b) ⊎ Collision sha256
      left_of (inl (p, q)) = inl p
      left_of (inr x) = inr x

      right_of : ((c ≡ d) × (a ≡ b)) ⊎ Collision sha256 → (a ≡ b) ⊎ Collision sha256
      right_of (inl (p, q)) = inl q
      right_of (inr x) = inr x

  hash_step-parity :
      (i j : ℕ) (a c : Bytes) → i % 2 ≡ j % 2 → hash_step sha256 i a c ≡ hash_step sha256 j a c
  unfolding hash_step
  hash_step-parity i j a c h = ground arith

  -- Only the low bits of the index are read.
  pub climb-low_bits :
      (i j q : ℕ) (current : Bytes) (siblings : List Bytes)
      → i ≡ q * 2 ^ length siblings + j
      → climb sha256 i current siblings ≡ climb sha256 j current siblings
  unfolding climb
  climb-low_bits i j q current [] e = refl
  climb-low_bits i j q current (x ∷ siblings) e =
      let e' : i ≡ q * (2 ^ length siblings * 2) + j =
        e ∙ ap (λ t. q * t + j) (pow-suc 2 (length siblings)) in
      ap (λ c. climb sha256 (i / 2) c siblings) (hash_step-parity i j current x (omega arith))
      ∙ climb-low_bits (i / 2) (j / 2) q (hash_step sha256 j current x) siblings (omega arith)

module _ (sha256 : Bytes → Bytes) (sized : (x : Bytes) → length (sha256 x) ≡ 32) where
  pub length-hash_step : (i : ℕ) (a b : Bytes) → length (hash_step sha256 i a b) ≡ 32
  unfolding hash_step hash_pair
  length-hash_step i a b = elim (Bool-cases (nat_eq (i % 2) 0)) [
    | inl even ↦ rw (even, hash_step) (sized _)
    | inr odd ↦ rw (odd, hash_step) (sized _)
  ]

module _ (sha256 : Bytes → Bytes) (sized : (x : Bytes) → length (sha256 x) ≡ 32)
    (leaves : ℕ → Bytes) (leaves_sized : (i : ℕ) → length (leaves i) ≡ 32) where
  length-node : (level i : ℕ) → length (node sha256 leaves level i) ≡ 32
  unfolding node hash_pair
  length-node zero i = leaves_sized i
  length-node (suc level) i = sized _

  pub All32-siblings_of : (rounds level i : ℕ) → All32 (siblings_of sha256 leaves rounds level i)
  unfolding siblings_of
  All32-siblings_of zero level i = tt
  All32-siblings_of (suc rounds) level i =
      (length-node level (sibling i), All32-siblings_of rounds (suc level) (i / 2))

  -- A path that climbs to a node of the tree starts at a node of the tree.
  pub climb_sound :
      (level depth i : ℕ) (current : Bytes) (siblings : List Bytes)
      → level + length siblings ≡ depth
      → length current ≡ 32
      → All32 siblings
      → climb sha256 i current siblings ≡ node sha256 leaves depth (shr (length siblings) i)
      → (current ≡ node sha256 leaves level i) ⊎ Collision sha256
  unfolding climb
  climb_sound level depth i current [] e k a h =
      inl (h ∙ ap (λ l. node sha256 leaves l i) (omega arith))
  climb_sound level depth i current (x ∷ siblings) e k a h =
      elim (climb_sound (suc level) depth (i / 2) (hash_step sha256 i current x) siblings
        (omega arith) (length-hash_step sha256 sized i current x) a.1 h) [
          | inl up ↦
              hash_step-injective sha256 i current (node sha256 leaves level i) x
                (node sha256 leaves level (sibling i)) (k ∙ sym (length-node level i))
                (a.0 ∙ sym (length-node level (sibling i)))
                (up ∙ sym (hash_step-node sha256 leaves level i))
          | inr c ↦ inr c
        ]

pub leaves_of-sized : (l : List Bytes) → All32 l → (i : ℕ) → length (leaves_of l i) ≡ 32
leaves_of-sized [] a i = refl
leaves_of-sized (x ∷ l) a zero = a.0
leaves_of-sized (x ∷ l) a (suc i) = leaves_of-sized l a.1 i
