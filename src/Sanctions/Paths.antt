-- ===== src/Sanctions/Paths.antt =====
-- What the Merkle check of the program decides on the tree of the oracle.
use native.Mathlib.Nat.{mod-lt, div-add-mod'}
use obscura_network.Prelude.{
  ℕ, zero, suc, ◌+◌, ◌-◌, ◌/◌, ◌%◌, ◌^◌, ◌≡◌, ◌↔◌, ◌⊎◌, refl, sym, ap, ◌∙◌, inl, inr, true, List,
  [], ◌∷◌, ◌++◌, Bytes, bytes_eq, bytes_eq_sound, bytes_eq_ne, get_or, bytes_eq_iff, Bytes_Eq,
  length, nat_eq, ltb, arith, Bool-cases,
}
use obscura_network.Merkle.{climb, hash_step, hash_pair, zero_bytes}
use obscura_network.Merkle.Tree.{node}
use obscura_network.Merkle.Insert.{shr-zero}
use obscura_network.Merkle.Inclusion.{
  Collision, All32, append-injective, climb-low_bits, climb_sound, length-hash_step,
}
use obscura_network.Merkle.Binding.{unless_collides, Collision-tagged}
use obscura_network.Sanctions.Oracle.{hash_leaf, leaf_tag, node_tag}
use obscura_network.Sanctions.Levels.{node_hash, power_pos}
use obscura_network.Sanctions.Build.{leaf_at}
use obscura_network.Sanctions.Circuit as Circuit
use obscura_network.Sanctions.Circuit.{path_loop, verify_merkle_proof}

module _ (sha256 : Bytes → Bytes) where
  path_loop-climb :
      (idx : ℕ) (current : Bytes) (proof : List Bytes)
      → path_loop sha256 idx current proof ≡ climb (node_hash sha256) idx current proof
  unfolding path_loop climb hash_step hash_pair Circuit.hash_node
  path_loop-climb idx current [] = refl
  path_loop-climb idx current (x ∷ proof) =
      path_loop-climb (idx / 2) _ proof
      ∙ ap (λ c. climb (node_hash sha256) (idx / 2) c proof) (ground arith)

  pub verify_merkle_proof_iff :
      (leaf : Bytes) (index : ℕ) (proof : List Bytes) (root : Bytes) (depth : ℕ)
      → (verify_merkle_proof sha256 leaf index proof root depth ≡ true)
        ↔ ((length proof ≡ depth) × (climb (node_hash sha256) index leaf proof ≡ root))
  unfolding verify_merkle_proof
  verify_merkle_proof_iff leaf index proof root depth = ground (
    arith,
    path_loop-climb index leaf proof,
    bytes_eq_iff (path_loop sha256 index leaf proof) root,
  )

module _ (sha256 : Bytes → Bytes) (sized : (x : Bytes) → length (sha256 x) ≡ 32)
    (leaves : ℕ → Bytes) (leaves_sized : (i : ℕ) → length (leaves i) ≡ 32) where
  -- A path to the root starts at the node that the low bits of its index name.
  pub climb_to_root :
      (level depth i : ℕ) (current : Bytes) (siblings : List Bytes)
      → level + length siblings ≡ depth
      → length current ≡ 32
      → All32 siblings
      → climb sha256 i current siblings ≡ node sha256 leaves depth 0
      → (current ≡ node sha256 leaves level (i % 2 ^ length siblings)) ⊎ Collision sha256
  climb_to_root level depth i current siblings e k a h =
      let m = 2 ^ length siblings in
      let low = climb-low_bits sha256 i (i % m) (i / m) current siblings (sym (div-add-mod' i m)) in
      let top = shr-zero (length siblings) (i % m) (mod-lt i (power_pos (length siblings))) in
      climb_sound sha256 sized leaves leaves_sized level depth (i % m) current siblings e k a
        (sym low ∙ (h ∙ ap (node sha256 leaves depth) (sym top)))

compare_cases :
    (m n : ℕ) → ((over : ℕ) × (m ≡ suc over + n)) ⊎ ((m ≡ n) ⊎ ((under : ℕ) × (suc under + m ≡ n)))
compare_cases m n = elim (Bool-cases (ltb n m)) [
  | inl longer ↦ inl (m - n - 1, ground (arith, longer))
  | inr rest ↦ elim (Bool-cases (ltb m n)) [
    | inl shorter ↦ inr (inr (n - m - 1, ground (arith, shorter)))
    | inr same ↦ inr (inl (ground (arith, rest, same)))
  ]
]

module _ (sha256 : Bytes → Bytes) (sized : (x : Bytes) → length (sha256 x) ≡ 32)
    (hashes : List Bytes) where
  leaf_node_apart : (x y : Bytes) → hash_leaf sha256 x ≡ sha256 (node_tag ++ y) → Collision sha256
  unfolding hash_leaf
  leaf_node_apart x y h =
      (leaf_tag ++ x, node_tag ++ y, (λ e. omega (arith, ap (λ l. get_or l 0 0) e)), h)

  hash_leaf-injective :
      (x y : Bytes) → hash_leaf sha256 x ≡ hash_leaf sha256 y → (x ≡ y) ⊎ Collision sha256
  unfolding hash_leaf
  hash_leaf-injective x y h = elim (Bool-cases (bytes_eq x y)) [
    | inl same ↦ inl (bytes_eq_sound x y same)
    | inr differ ↦ inr (
      leaf_tag ++ x,
      leaf_tag ++ y,
      (λ e. bytes_eq_ne x y differ (append-injective leaf_tag leaf_tag x y refl e).1),
      h,
    )
  ]

  leaf-sized : (i : ℕ) → length (leaf_at sha256 hashes i) ≡ 32
  unfolding hash_leaf
  leaf-sized i = sized _

  untag {ℓ} : {A : Type ℓ} → A ⊎ Collision (node_hash sha256) → A ⊎ Collision sha256
  untag (inl a) = inl a
  untag (inr c) = inr (Collision-tagged sha256 node_tag c)

  hash_step_tagged :
      (i : ℕ) (a b : Bytes)
      → (y : Bytes) × (hash_step (node_hash sha256) i a b ≡ sha256 (node_tag ++ y))
  unfolding hash_step hash_pair
  hash_step_tagged i a b = elim (Bool-cases (nat_eq (i % 2) 0)) [
    | inl even ↦ (a ++ b, rw (even, hash_step) refl)
    | inr odd ↦ (b ++ a, rw (odd, hash_step) refl)
  ]

  from_root :
      (level depth i : ℕ) (current : Bytes) (siblings : List Bytes)
      → level + length siblings ≡ depth
      → length current ≡ 32
      → All32 siblings
      → climb (node_hash sha256) i current siblings
        ≡ node (node_hash sha256) (leaf_at sha256 hashes) depth 0
      → (current ≡ node (node_hash sha256) (leaf_at sha256 hashes) level (i % 2 ^ length siblings))
        ⊎ Collision sha256
  from_root level depth i current siblings e k a h = untag (
      climb_to_root (node_hash sha256) (λ z. sized _) (leaf_at sha256 hashes) leaf-sized level depth
        i current siblings e k a h)

  -- A path that starts below the leaves shows a collision.
  long_path :
      (over depth i : ℕ) (current : Bytes) (siblings : List Bytes)
      → length siblings ≡ suc over + depth
      → All32 siblings
      → climb (node_hash sha256) i current siblings
        ≡ node (node_hash sha256) (leaf_at sha256 hashes) depth 0
      → Collision sha256
  unfolding climb node
  long_path over depth i current [] n a h = absurd (omega arith)
  long_path (suc over) depth i current (x ∷ siblings) n a h =
      long_path over depth (i / 2) (hash_step (node_hash sha256) i current x) siblings (omega arith)
        a.1 h
  long_path zero depth i current (x ∷ siblings) n a h =
      let (y, e) = hash_step_tagged i current x in
      elim (from_root 0 depth (i / 2) (hash_step (node_hash sha256) i current x) siblings
        (omega arith) (length-hash_step (node_hash sha256) (λ z. sized _) i current x) a.1 h) [
          | inl leaf ↦ leaf_node_apart _ y (sym leaf ∙ e)
          | inr c ↦ c
        ]

  -- A path from a leaf to the root is as long as the tree is high and starts at a listed hash.
  pub path_binds :
      (depth i : ℕ) (x : Bytes) (siblings : List Bytes)
      → All32 siblings
      → climb (node_hash sha256) i (hash_leaf sha256 x) siblings
        ≡ node (node_hash sha256) (leaf_at sha256 hashes) depth 0
      → (x ≡ get_or hashes (i % 2 ^ depth) zero_bytes) ⊎ Collision sha256
  unfolding node hash_pair hash_leaf
  path_binds depth i x siblings a h = elim (compare_cases (length siblings) depth) [
    | inl (over, longer) ↦ inr (long_path over depth i (hash_leaf sha256 x) siblings longer a h)
    | inr (inl same) ↦
        unless_collides
          (from_root 0 depth i (hash_leaf sha256 x) siblings (omega arith) (sized _) a h)
          (λ e. hash_leaf-injective x _ (e ∙ ap (λ n. leaf_at sha256 hashes (i % 2 ^ n)) same))
    | inr (inr (under, shorter)) ↦
        unless_collides
          (from_root (suc under) depth i (hash_leaf sha256 x) siblings (omega arith) (sized _) a h)
          (λ e. inr (leaf_node_apart x _ e))
  ]
