-- ===== src/Merkle/Paths.antt =====
-- `build_proof_paths`: the array of the rebuilt tree, and the paths read off it.
use native.Mathlib.Nat.{pow-suc, one-le-pow, pow-le-pow_right}
use obscura_network.Prelude.{
  ℕ, zero, suc, ◌+◌, ◌-◌, ◌*◌, ◌/◌, ◌^◌, ◌<◌, ◌≤◌, ◌≡◌, refl, sym, ap, ap₂, subst, ◌∙◌, inl, inr,
  true, some, none, List, ◌∷◌, Bytes, length, get_elem?, nat_eq, leb, le→leb, Bool-cases, arith,
  if◌then◌else◌,
}
use obscura_network.Merkle.{
  hash_pair, verify, tree_depth, zero_value, zero_loop, zero_bytes, fill_leaves, fill_empty,
  build_up, proof_nodes, sibling_path, all_paths, build_proof_paths,
}
use obscura_network.Merkle.Tree.{leaves_of-beyond, node, tree_root, leaves_of}
use obscura_network.Merkle.Inclusion.{siblings_of, sibling}
use obscura_network.Merkle.Verify.{verify_complete}
use obscura_network.Merkle.Fill.{
  write_self, write_ne, fill_leaves-at, fill_empty-before, fill_empty-at, read_sibling,
}

module _ (sha256 : Bytes → Bytes) where
  build_up-above : (k p : ℕ) (nodes : ℕ → Bytes) → k < p → build_up sha256 k nodes p ≡ nodes p
  unfolding build_up
  build_up-above zero p nodes h = refl
  build_up-above (suc k) p nodes h = build_up-above k p _ (omega arith) ∙ ground arith

  build_up-top :
      (k : ℕ) (nodes : ℕ → Bytes)
      → build_up sha256 (suc k) nodes (suc k)
        ≡ hash_pair sha256
            (build_up sha256 (suc k) nodes (2 * suc k))
            (build_up sha256 (suc k) nodes (2 * suc k + 1))
  unfolding build_up
  build_up-top k nodes =
      build_up-above k (suc k) _ (omega arith)
      ∙ (write_self nodes (suc k) _
          ∙ sym (
              ap₂ (hash_pair sha256)
                (build_up-above k (2 * suc k) _ (omega arith)
                  ∙ write_ne nodes (suc k) (2 * suc k) _ (omega arith))
                (build_up-above k (2 * suc k + 1) _ (omega arith)
                  ∙ write_ne nodes (suc k) (2 * suc k + 1) _ (omega arith))))

  build_up-node :
      (k p : ℕ) (nodes : ℕ → Bytes)
      → 0 < p
      → p ≤ k
      → build_up sha256 k nodes p
        ≡ hash_pair sha256 (build_up sha256 k nodes (2 * p)) (build_up sha256 k nodes (2 * p + 1))
  unfolding build_up
  build_up-node zero p nodes h le = absurd (omega arith)
  build_up-node (suc k) p nodes h le = elim (Bool-cases (nat_eq (suc k) p)) [
    | inl here ↦
        let e : suc k ≡ p = ground arith in
        subst
          (λ q.
            build_up sha256 (suc k) nodes q
            ≡ hash_pair sha256 (build_up sha256 (suc k) nodes (2 * q))
                (build_up sha256 (suc k) nodes (2 * q + 1)))
          e (build_up-top k nodes)
    | inr below ↦ build_up-node k p _ h (ground arith)
  ]

  proof_nodes-leaf :
      (size i : ℕ) (l : List Bytes)
      → length l ≤ size
      → i < size
      → proof_nodes sha256 size l (size + i) ≡ leaves_of l i
  unfolding proof_nodes zero_value zero_loop
  proof_nodes-leaf size i l le h =
      build_up-above (size - 1) (size + i) _ (omega arith) ∙ elim (Bool-cases (leb (length l) i)) [
        | inl past ↦
            ap (fill_empty (size - length l) size (length l) zero_bytes _) {x = size + i}
              {y = size + (length l + (i - length l))} (ground arith)
            ∙ (fill_empty-at (size - length l) size (length l) (i - length l) zero_bytes _
                  (ground arith)
                ∙ sym (leaves_of-beyond l i (ground arith)))
        | inr inside ↦
            fill_empty-before (size - length l) size (length l) (size + i) zero_bytes _
              (ground arith)
            ∙ (ap (fill_leaves size 0 l (λ _. zero_bytes)) {x = size + i} {y = size + (0 + i)}
                  (omega arith)
                ∙ fill_leaves-at size 0 i l _ (ground arith))
      ]

  proof_nodes-node :
      (size p : ℕ) (l : List Bytes)
      → 0 < p
      → p < size
      → proof_nodes sha256 size l p
        ≡ hash_pair sha256
            (proof_nodes sha256 size l (2 * p))
            (proof_nodes sha256 size l (2 * p + 1))
  unfolding proof_nodes
  proof_nodes-node size p l h lt = build_up-node (size - 1) p _ h (omega arith)

  -- Node `i` of a level stands at place `2 ^ above + i` of the array.
  proof_nodes-is_node :
      (depth level above i : ℕ) (l : List Bytes)
      → above + level ≡ depth
      → length l ≤ 2 ^ depth
      → i < 2 ^ above
      → proof_nodes sha256 (2 ^ depth) l (2 ^ above + i) ≡ node sha256 (leaves_of l) level i
  unfolding node
  proof_nodes-is_node depth zero above i l e le h =
      let same : above ≡ depth = omega arith in
      ap (λ a. proof_nodes sha256 (2 ^ depth) l (2 ^ a + i)) same
      ∙ proof_nodes-leaf (2 ^ depth) i l le (subst (λ a. i < 2 ^ a) same h)
  proof_nodes-is_node depth (suc level) above i l e le h =
      let pos : 1 ≤ 2 ^ above = one-le-pow above 2 (omega arith) in
      let top : 2 ^ suc above ≤ 2 ^ depth = pow-le-pow_right {n = 2} (omega arith) (omega arith) in
      let double : 2 ^ suc above ≡ 2 ^ above * 2 = pow-suc 2 above in
      proof_nodes-node (2 ^ depth) (2 ^ above + i) l (omega arith) (omega arith)
      ∙ ap₂ (hash_pair sha256)
          (ap (proof_nodes sha256 (2 ^ depth) l) (omega arith)
            ∙ proof_nodes-is_node depth level (suc above) (2 * i) l (omega arith) le (omega arith))
          (ap (proof_nodes sha256 (2 ^ depth) l) (omega arith)
            ∙ proof_nodes-is_node depth level (suc above) (2 * i + 1) l (omega arith) le
                (omega arith))

  -- The siblings read off the array are those of the tree.
  sibling_path-siblings_of :
      (depth rounds level i : ℕ) (l : List Bytes)
      → rounds + level ≡ depth
      → length l ≤ 2 ^ depth
      → i < 2 ^ rounds
      → sibling_path sha256 rounds (proof_nodes sha256 (2 ^ depth) l) (2 ^ rounds + i)
        ≡ siblings_of sha256 (leaves_of l) rounds level i
  unfolding sibling_path siblings_of
  sibling_path-siblings_of depth zero level i l e le h = refl
  sibling_path-siblings_of depth (suc rounds) level i l e le h =
      let double : 2 ^ suc rounds ≡ 2 ^ rounds * 2 = pow-suc 2 rounds in
      ap₂ (λ x (xs : List Bytes). x ∷ xs)
        (read_sibling (proof_nodes sha256 (2 ^ depth) l) (2 ^ suc rounds) (2 ^ rounds) i double
          ∙ proof_nodes-is_node depth level (suc rounds) (sibling i) l e le (ground arith))
        (ap (sibling_path sha256 rounds (proof_nodes sha256 (2 ^ depth) l)) (omega arith)
          ∙ sibling_path-siblings_of depth rounds (suc level) (i / 2) l (omega arith) le
              (omega arith))

  get_elem?-all_paths :
      (count size start i : ℕ) (nodes : ℕ → Bytes)
      → i < count
      → get_elem? (all_paths sha256 count size start nodes) i
        ≡ some (sibling_path sha256 tree_depth nodes (size + (start + i)))
  unfolding all_paths
  get_elem?-all_paths zero size start i nodes h = absurd (omega arith)
  get_elem?-all_paths (suc count) size start zero nodes h =
      ap (λ p. some (sibling_path sha256 tree_depth nodes p)) (omega arith)
  get_elem?-all_paths (suc count) size start (suc i) nodes h =
      get_elem?-all_paths count size (start + 1) i nodes (omega arith)
      ∙ ap (λ p. some (sibling_path sha256 tree_depth nodes p)) (omega arith)

  -- With at most 2^20 leaves the paths are built, one for each leaf, and the path of a leaf is a
  -- proof that `verify` accepts for this leaf, at its index, against the root of the tree.
  pub build_proof_paths-verify :
      (l : List Bytes) (i : ℕ)
      → length l ≤ 2 ^ tree_depth
      → i < length l
      → (paths : List (List Bytes)) × (path : List Bytes) × (build_proof_paths sha256 l
          ≡ some paths)
        × (get_elem? paths i ≡ some path)
        × (verify sha256
              (record { leaf_index = i; siblings = path; root = tree_root sha256 l })
              (leaves_of l i)
            ≡ true)
  unfolding build_proof_paths
  build_proof_paths-verify l i le h = (
    all_paths sha256 (length l) (2 ^ tree_depth) 0 (proof_nodes sha256 (2 ^ tree_depth) l),
    siblings_of sha256 (leaves_of l) tree_depth 0 i,
    ap
        (λ b.
          if b
          then some (
              all_paths sha256 (length l) (2 ^ tree_depth) 0
                (proof_nodes sha256 (2 ^ tree_depth) l))
          else none)
        (le→leb (length l) (2 ^ tree_depth) le),
    get_elem?-all_paths (length l) (2 ^ tree_depth) 0 i _ h
        ∙ ap some (
            ap (sibling_path sha256 tree_depth (proof_nodes sha256 (2 ^ tree_depth) l))
              {x = 2 ^ tree_depth + (0 + i)} {y = 2 ^ tree_depth + i} (omega arith)
            ∙ sibling_path-siblings_of tree_depth tree_depth 0 i l refl le (omega arith)),
    verify_complete sha256 l i (omega arith),
  )
