-- ===== src/Merkle/Tree.antt =====
-- The specification of the tree: every node of the complete binary tree over a sequence of leaves.
use obscura_network.Prelude.{
  ℕ, zero, suc, ◌+◌, ◌*◌, ◌/◌, ◌≤◌, ◌≡◌, refl, ◌≢◌, List, [], ◌∷◌, length, Bytes, arith, get_or,
  ap₂, ◌∙◌, sym,
}
use obscura_network.Merkle.{hash_pair, zero_loop, zero_value, zero_bytes, tree_depth}

-- The leaves of a tree that holds a list: its elements, then the value of an empty leaf.
abbrev pub leaves_of : List Bytes → ℕ → Bytes
leaves_of l i = get_or l i zero_bytes

-- Beyond the list the leaves are empty.
pub leaves_of-beyond : (l : List Bytes) (i : ℕ) → length l ≤ i → leaves_of l i ≡ zero_bytes
leaves_of-beyond [] i h = refl
leaves_of-beyond (y ∷ l) zero h = absurd (omega arith)
leaves_of-beyond (y ∷ l) (suc i) h = leaves_of-beyond l i (omega arith)

module _ (sha256 : Bytes → Bytes) where
  -- Node `i` of a level, counted from the left; level 0 has the leaves.
  unfoldable pub node : (ℕ → Bytes) → ℕ → ℕ → Bytes
  node leaves zero i = leaves i
  node leaves (suc level) i =
      hash_pair sha256 (node leaves level (2 * i)) (node leaves level (2 * i + 1))

  -- The root over all leaves.
  unfoldable pub tree_root : List Bytes → Bytes
  tree_root l = node (leaves_of l) tree_depth 0

  pub node-zero : (leaves : ℕ → Bytes) (i : ℕ) → node leaves 0 i ≡ leaves i
  unfolding node
  node-zero leaves i = refl

  pub tree_root_lem : (l : List Bytes) → tree_root l ≡ node (leaves_of l) tree_depth 0
  unfolding tree_root
  tree_root_lem l = refl

  zero_loop-suc :
      (rounds : ℕ) (c : Bytes)
      → zero_loop sha256 (suc rounds) c
        ≡ hash_pair sha256 (zero_loop sha256 rounds c) (zero_loop sha256 rounds c)
  unfolding zero_loop
  zero_loop-suc zero c = refl
  zero_loop-suc (suc rounds) c = zero_loop-suc rounds (hash_pair sha256 c c)

  pub zero_value-suc :
      (level : ℕ)
      → zero_value sha256 (suc level)
        ≡ hash_pair sha256 (zero_value sha256 level) (zero_value sha256 level)
  unfolding zero_value
  zero_value-suc level = zero_loop-suc level zero_bytes

  -- From index `k` on, level `level` holds only empty subtrees.
  abbrev pub ZeroFrom : (ℕ → Bytes) → ℕ → ℕ → Type 0
  ZeroFrom leaves level k = (i : ℕ) → k ≤ i → node leaves level i ≡ zero_value sha256 level

  -- The level has one value at every index but one in both trees.
  abbrev pub AgreeBut : (ℕ → Bytes) → (ℕ → Bytes) → ℕ → ℕ → Type 0
  AgreeBut leaves leaves' level k = (i : ℕ) → i ≢ k → node leaves' level i ≡ node leaves level i

  pub ZeroFrom-suc :
      (leaves : ℕ → Bytes) (level k : ℕ)
      → ZeroFrom leaves level k
      → ZeroFrom leaves (suc level) ((k + 1) / 2)
  unfolding node
  ZeroFrom-suc leaves level k h i le =
      ap₂ (hash_pair sha256) (h (2 * i) (omega arith)) (h (2 * i + 1) (omega arith))
      ∙ sym (zero_value-suc level)

  pub AgreeBut-suc :
      (leaves leaves' : ℕ → Bytes) (level k : ℕ)
      → AgreeBut leaves leaves' level k
      → AgreeBut leaves leaves' (suc level) (k / 2)
  unfolding node
  AgreeBut-suc leaves leaves' level k h i ne =
      ap₂ (hash_pair sha256) (h (2 * i) (omega (arith))) (h (2 * i + 1) (omega arith))

  -- The empty tree.
  pub node-empty : (level i : ℕ) → node (λ _. zero_bytes) level i ≡ zero_value sha256 level
  unfolding node zero_value zero_loop
  node-empty zero i = refl
  node-empty (suc level) i =
      ap₂ (hash_pair sha256) (node-empty level (2 * i)) (node-empty level (2 * i + 1))
      ∙ sym (zero_value-suc level)
