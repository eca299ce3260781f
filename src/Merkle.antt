-- ===== src/Merkle.antt =====
-- crates/privacy/src/merkle.rs: the incremental Merkle tree of note commitments.
-- `sha256` stands for the sha2 crate. Nodes are byte strings; nothing here depends on their length.
pub mod Tree
pub mod Insert
pub mod Append
pub mod Inclusion
pub mod Verify
pub mod Binding
pub mod Fill
pub mod Paths
use obscura_network.Prelude.{
  ℕ, zero, suc, ◌+◌, ◌-◌, ◌*◌, ◌^◌, ◌/◌, ◌%◌, Bool, true, false, Option, some, none, List, [], ◌∷◌,
  ◌++◌, Bytes, StateMap, insert, ◌==◌, ℕ_Eq, Bytes_Eq, length, replicate, nat_eq, leb,
  if◌then◌else◌,
}

abbrev pub tree_depth : ℕ
tree_depth = 20

abbrev pub roots_history_size : ℕ
roots_history_size = 100

abbrev pub zero_bytes : Bytes
zero_bytes = replicate 32 0

module _ (sha256 : Bytes → Bytes) where
  unfoldable pub hash_pair : Bytes → Bytes → Bytes
  hash_pair left right = sha256 (left ++ right)

  -- `for _ in 0..level { current = hash_pair(&current, &current) }`
  zero_loop : ℕ → Bytes → Bytes
  zero_loop zero current = current
  zero_loop (suc rounds) current = zero_loop rounds (hash_pair current current)

  unfoldable pub zero_value : ℕ → Bytes
  unfolding zero_loop
  zero_value level = zero_loop level zero_bytes

  unfoldable pub empty_root : Bytes
  empty_root = zero_value tree_depth

  -- The hash of a node and its sibling, by the lowest bit of the node's index.
  unfoldable pub hash_step : ℕ → Bytes → Bytes → Bytes
  hash_step index current sibling = elim (nat_eq (index % 2) 0) [
    | true ↦ hash_pair current sibling
    | false ↦ hash_pair sibling current
  ]

  -- The loop of `MerkleProof::verify`: the root that the siblings lead to.
  unfoldable pub climb : ℕ → Bytes → List Bytes → Bytes
  climb index current [] = current
  climb index current (sibling ∷ siblings) =
      climb (index / 2) (hash_step index current sibling) siblings

  -- The loop of `compute_insert` over the levels from `level` on, `rounds` of them.
  pub insert_loop : ℕ → ℕ → ℕ → Bytes → (ℕ → Bytes) → Bytes × List (ℕ × Bytes)
  insert_loop zero level index current get_filled = (current, [])
  insert_loop (suc rounds) level index current get_filled = elim (nat_eq (index % 2) 0) [
    | true ↦
        let (root, updates) =
          insert_loop rounds (suc level) (index / 2) (hash_pair current (zero_value level))
            get_filled in
        (root, (level, current) ∷ updates)
    | false ↦
        insert_loop rounds (suc level) (index / 2) (hash_pair (get_filled level) current) get_filled
  ]

  unfoldable pub compute_insert : Bytes → ℕ → (ℕ → Bytes) → Bytes × List (ℕ × Bytes)
  unfolding insert_loop
  compute_insert leaf next_index get_filled = insert_loop tree_depth 0 next_index leaf get_filled

pub record MerkleProof : Type 0 where
  pub leaf_index : ℕ
  pub siblings : List Bytes
  pub root : Bytes

unfoldable pub verify : (Bytes → Bytes) → MerkleProof → Bytes → Bool
verify sha256 proof leaf = elim (nat_eq (length proof.siblings) tree_depth) [
  | true ↦ climb sha256 proof.leaf_index leaf proof.siblings == proof.root
  | false ↦ false
]

-- `for (level, val) in updates { filled_subtrees.set(level, val) }`
unfoldable pub persist : StateMap ℕ Bytes → List (ℕ × Bytes) → StateMap ℕ Bytes
persist filled [] = filled
persist filled ((level, val) ∷ updates) = persist (insert filled level val) updates

-- `nodes[p] = value` on the array of `build_proof_paths`, whose bounds its caller keeps.
abbrev pub write : (ℕ → Bytes) → ℕ → Bytes → ℕ → Bytes
write nodes p value q = if nat_eq p q then value else nodes q

-- `for (i, leaf) in leaves.iter().enumerate() { nodes[size + i] = *leaf }`, from index `i` on
pub fill_leaves : ℕ → ℕ → List Bytes → (ℕ → Bytes) → ℕ → Bytes
fill_leaves size i [] nodes = nodes
fill_leaves size i (leaf ∷ leaves) nodes =
    fill_leaves size (i + 1) leaves (write nodes (size + i) leaf)

-- `for i in leaves.len()..size { nodes[size + i] = zero_leaf }`, `rounds` of them from index `i` on
pub fill_empty : ℕ → ℕ → ℕ → Bytes → (ℕ → Bytes) → ℕ → Bytes
fill_empty zero size i zero_leaf nodes = nodes
fill_empty (suc rounds) size i zero_leaf nodes =
    fill_empty rounds size (i + 1) zero_leaf (write nodes (size + i) zero_leaf)

module _ (sha256 : Bytes → Bytes) where
  -- `for level in (1..size).rev() { nodes[level] = hash_pair(..) }`, from `level` down to 1
  build_up : ℕ → (ℕ → Bytes) → ℕ → Bytes
  build_up zero nodes = nodes
  build_up (suc level) nodes = build_up level (
      write nodes (suc level)
        (hash_pair sha256 (nodes (2 * suc level)) (nodes (2 * suc level + 1))))

  -- The three loops that fill the array, for a tree of `size` leaves.
  proof_nodes : ℕ → List Bytes → ℕ → Bytes
  unfolding fill_leaves fill_empty build_up
  proof_nodes size leaves = build_up (size - 1) (
      fill_empty (size - length leaves) size (length leaves) (zero_value sha256 0)
        (fill_leaves size 0 leaves (λ _. zero_bytes)))

  -- The loop that reads the siblings off, upwards from array position `pos`.
  sibling_path : ℕ → (ℕ → Bytes) → ℕ → List Bytes
  sibling_path zero nodes pos = []
  sibling_path (suc rounds) nodes pos =
      (if nat_eq (pos % 2) 0 then nodes (pos + 1) else nodes (pos - 1))
      ∷ sibling_path rounds nodes (pos / 2)

  -- `for i in 0..leaves.len()`, `count` of them from index `i` on
  all_paths : ℕ → ℕ → ℕ → (ℕ → Bytes) → List (List Bytes)
  unfolding sibling_path
  all_paths zero size i nodes = []
  all_paths (suc count) size i nodes =
      sibling_path tree_depth nodes (size + i) ∷ all_paths count size (i + 1) nodes

  -- `none` is the panic on an index beyond the array, when there are more leaves than places.
  unfoldable pub build_proof_paths : List Bytes → Option (List (List Bytes))
  unfolding proof_nodes all_paths
  build_proof_paths leaves =
      if leb (length leaves) (2 ^ tree_depth)
      then some (all_paths (length leaves) (2 ^ tree_depth) 0 (proof_nodes (2 ^ tree_depth) leaves))
      else none
