-- ===== src/Merkle/Verify.antt =====
-- What `MerkleProof::verify` accepts and what it refuses.
use native.Mathlib.Nat.{div-add-mod'}
use obscura_network.Prelude.{
  ℕ, zero, suc, ◌/◌, ◌%◌, ◌^◌, ◌<◌, ◌≡◌, refl, sym, ap, subst, ◌∙◌, ◌⊎◌, inl, inr, true, List,
  Bytes, bytes_eq_sound, bytes_eq_iff, length, nat_eq, Bool-cases, arith,
}
use obscura_network.Merkle.{climb, verify, MerkleProof, tree_depth}
use obscura_network.Merkle.Tree.{node, tree_root, leaves_of, node-zero, tree_root_lem}
use obscura_network.Merkle.Insert.{shr-zero}
use obscura_network.Merkle.Inclusion.{
  Collision, All32, siblings_of, climb-siblings_of, climb_sound, leaves_of-sized, climb-low_bits,
}

module _ (sha256 : Bytes → Bytes) where
  pub verify-length :
      (proof : MerkleProof) (leaf : Bytes)
      → verify sha256 proof leaf ≡ true
      → (length proof.siblings ≡ tree_depth)
        × (climb sha256 proof.leaf_index leaf proof.siblings ≡ proof.root)
  unfolding verify
  verify-length proof leaf h = elim (Bool-cases (nat_eq (length proof.siblings) tree_depth)) [
    | inl full ↦ (ground arith, bytes_eq_sound _ _ (rw (full, verify) at h))
    | inr short ↦ cc (rw (short, verify) at h)
  ]

  pub verify-true :
      (proof : MerkleProof) (leaf : Bytes)
      → length proof.siblings ≡ tree_depth
      → climb sha256 proof.leaf_index leaf proof.siblings ≡ proof.root
      → verify sha256 proof leaf ≡ true
  unfolding verify
  verify-true proof leaf n c = rw (n, verify) ((bytes_eq_iff _ _).1 c)

  pub length-siblings_of :
      (leaves : ℕ → Bytes) (rounds level i : ℕ)
      → length (siblings_of sha256 leaves rounds level i) ≡ rounds
  unfolding siblings_of
  length-siblings_of leaves zero level i = refl
  length-siblings_of leaves (suc rounds) level i =
      ap suc (length-siblings_of leaves rounds (suc level) (i / 2))

  -- A proof made of the siblings of a place below 2^20 in the tree is accepted for the leaf at that
  -- place, against the root of the tree.
  pub verify_complete :
      (l : List Bytes) (i : ℕ)
      → i < 2 ^ tree_depth
      → verify sha256
          (record {
            leaf_index = i;
            siblings = siblings_of sha256 (leaves_of l) tree_depth 0 i;
            root = tree_root sha256 l;
          })
          (leaves_of l i)
        ≡ true
  verify_complete l i h =
      verify-true _ (leaves_of l i) (length-siblings_of (leaves_of l) tree_depth 0 i) (
        ap (λ c. climb sha256 i c (siblings_of sha256 (leaves_of l) tree_depth 0 i))
          (sym (node-zero sha256 (leaves_of l) i))
        ∙ (climb-siblings_of sha256 (leaves_of l) tree_depth 0 tree_depth i refl
            ∙ (ap (node sha256 (leaves_of l) tree_depth) (shr-zero tree_depth i h)
                ∙ sym (tree_root_lem sha256 l))))

  -- For a hash of 32 bytes, a proof with siblings of 32 bytes that is accepted for a leaf of 32
  -- bytes against the root of the tree over `l`, whose leaves have 32 bytes, is for the leaf at the
  -- index, taken modulo 2^20; or the hash has a collision.
  pub verify_sound :
      (sized : (x : Bytes) → length (sha256 x) ≡ 32) (l : List Bytes) (proof : MerkleProof)
      (leaf : Bytes)
      → All32 l
      → length leaf ≡ 32
      → All32 proof.siblings
      → proof.root ≡ tree_root sha256 l
      → verify sha256 proof leaf ≡ true
      → (leaf ≡ leaves_of l (proof.leaf_index % 2 ^ tree_depth)) ⊎ Collision sha256
  verify_sound sized l proof leaf al k a r h =
      let (n, c) = verify-length proof leaf h in
      let place = proof.leaf_index % 2 ^ tree_depth in
      subst (λ (x : Bytes). (leaf ≡ x) ⊎ Collision sha256) (node-zero sha256 (leaves_of l) place)
        (climb_sound sha256 sized (leaves_of l) (leaves_of-sized l al) 0 tree_depth place leaf
          proof.siblings (omega arith) k a
          (sym (
              climb-low_bits sha256 proof.leaf_index place (proof.leaf_index / 2 ^ tree_depth) leaf
                proof.siblings (rw n (sym (div-add-mod' proof.leaf_index (2 ^ tree_depth)))))
            ∙ (c
                ∙ (r
                    ∙ (tree_root_lem sha256 l
                        ∙ ap (node sha256 (leaves_of l) tree_depth)
                            (sym (rw n (shr-zero tree_depth place (omega arith)))))))))
