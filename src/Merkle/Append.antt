-- ===== src/Merkle/Append.antt =====
-- Appending one leaf to the tree: `compute_insert` against the tree of the whole list.
use obscura_network.Prelude.{
  ℕ, zero, suc, ◌^◌, ◌<◌, ◌≡◌, ◌≢◌, refl, sym, ap, ◌∙◌, inr, List, [], ◌∷◌, ◌++◌, Bytes, StateMap,
  length, length-append, arith,
}
use obscura_network.Merkle.{compute_insert, persist, tree_depth, zero_value, zero_loop, empty_root}
use obscura_network.Merkle.Tree.{leaves_of-beyond, node, tree_root, leaves_of, node-empty}
use obscura_network.Merkle.Insert.{
  filled_at, FilledFrom, OnPath, insert_loop-root, insert_loop-filled, shr-zero,
}

leaves_of-append_last : (l : List Bytes) (x : Bytes) → leaves_of (l ++ x ∷ []) (length l) ≡ x
leaves_of-append_last [] x = refl
leaves_of-append_last (y ∷ l) x = leaves_of-append_last l x

leaves_of-append_ne :
    (l : List Bytes) (x : Bytes) (i : ℕ) → i ≢ length l → leaves_of (l ++ x ∷ []) i ≡ leaves_of l i
leaves_of-append_ne [] x zero h = absurd (h refl)
leaves_of-append_ne [] x (suc i) h = refl
leaves_of-append_ne (y ∷ l) x zero h = refl
leaves_of-append_ne (y ∷ l) x (suc i) h = leaves_of-append_ne l x i (λ e. h (ap suc e))

module _ (sha256 : Bytes → Bytes) where
  -- The filled subtrees fit the tree over `l`, at the place where the next leaf goes.
  abbrev pub IsFilled : List Bytes → StateMap ℕ Bytes → Type 0
  IsFilled l filled = FilledFrom sha256 tree_depth 0 (length l) filled (leaves_of l)

  FilledFrom-zero :
      (rounds level : ℕ) (filled : StateMap ℕ Bytes) (leaves : ℕ → Bytes)
      → FilledFrom sha256 rounds level 0 filled leaves
  FilledFrom-zero zero level filled leaves = tt
  FilledFrom-zero (suc rounds) level filled leaves =
      ((λ h. absurd (omega arith)), FilledFrom-zero rounds (suc level) filled leaves)

  start-OnPath :
      (l : List Bytes) (leaf : Bytes)
      → OnPath sha256 (leaves_of l) (leaves_of (l ++ leaf ∷ [])) 0 (length l) leaf
  unfolding node zero_value zero_loop
  start-OnPath l leaf = record {
    is_node = sym (leaves_of-append_last l leaf);
    zeros = λ i le. leaves_of-append_ne l leaf i (omega arith) ∙ leaves_of-beyond l i (omega arith);
    agree = λ i ne. leaves_of-append_ne l leaf i ne;
  }

  -- With room in the tree, and filled subtrees that fit the tree over `l`, the new root is the root
  -- of the tree over all leaves, the new one included.
  pub compute_insert-tree_root :
      (l : List Bytes) (leaf : Bytes) (filled : StateMap ℕ Bytes)
      → length l < 2 ^ tree_depth
      → IsFilled l filled
      → (compute_insert sha256 leaf (length l) (filled_at sha256 filled)).0
        ≡ tree_root sha256 (l ++ leaf ∷ [])
  unfolding compute_insert tree_root
  compute_insert-tree_root l leaf filled h f =
      insert_loop-root sha256 (leaves_of l) (leaves_of (l ++ leaf ∷ [])) tree_depth 0 tree_depth
        (length l) leaf filled refl (start-OnPath l leaf) f
      ∙ ap (node sha256 (leaves_of (l ++ leaf ∷ [])) tree_depth) (shr-zero tree_depth (length l) h)

  -- Its updates leave the filled subtrees right for the leaf after.
  pub compute_insert-IsFilled :
      (l : List Bytes) (leaf : Bytes) (filled : StateMap ℕ Bytes)
      → IsFilled l filled
      → IsFilled
          (l ++ leaf ∷ [])
          (persist filled (compute_insert sha256 leaf (length l) (filled_at sha256 filled)).1)
  unfolding compute_insert
  compute_insert-IsFilled l leaf filled f =
      insert_loop-filled sha256 (leaves_of l) (leaves_of (l ++ leaf ∷ [])) tree_depth 0 (length l)
        (length (l ++ leaf ∷ [])) leaf filled filled
        (inr (ground (arith, length-append l (leaf ∷ [])))) (start-OnPath l leaf) f (λ j le. refl)

  -- The empty tree: nothing is asked of the filled subtrees, and the root is `empty_root`.
  pub IsFilled-empty : (filled : StateMap ℕ Bytes) → IsFilled [] filled
  IsFilled-empty filled = FilledFrom-zero tree_depth 0 filled (leaves_of [])

  pub tree_root-empty : tree_root sha256 [] ≡ empty_root sha256
  unfolding tree_root empty_root
  tree_root-empty = node-empty sha256 tree_depth 0
