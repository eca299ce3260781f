-- ===== src/Sanctions/Witness.antt =====
-- The witness of `non_membership_witness`: what it holds, and when there is none.
use obscura_network.Prelude.{
  ℕ, ◌-◌, ◌^◌, ◌<◌, ◌≡◌, refl, sym, ap, ◌∙◌, subst, inl, inr, true, false, List, Bytes,
  bytes_eq_self, Bytes_Eq, length, get_elem?, get_or, nat_eq, ltb, arith, Bool-cases, ok, err,
}
use obscura_network.Merkle.{zero_bytes}
use obscura_network.Merkle.Tree.{node}
use obscura_network.Merkle.Inclusion.{siblings_of}
use obscura_network.Sanctions.Order.{
  bytes_ltb, IsUpTo, IsArray, IsUpTo-greatest, IsUpTo-least, bytes_ltb_connected, IsUpTo-trans,
}
use obscura_network.Sanctions.Sort.{contains, contains-get_or, IsAscending-get_or}
use obscura_network.Sanctions.Oracle.{
  max_bytes, hash_addr, SanctionsMerkleTree, NonMembershipWitness, listed, or_panic, root,
  inclusion_proof, partition_point, stands_at, non_membership_witness, is_sanctioned, last_first,
}
use obscura_network.Sanctions.Levels.{node_hash, proof_loop-tree_levels, last_first-tree_levels}
use obscura_network.Sanctions.Build.{is_listed, leaf_at, IsTree, zero_listed, max_listed}
use obscura_network.Sanctions.Partition.{
  get_elem_lem, contains-partition_point, partition_point-below, partition_point_stop,
}

module _ (sha256 : Bytes → Bytes) (addresses : List Bytes) (tree : SanctionsMerkleTree)
    (is_tree : IsTree sha256 addresses tree) where
  -- The root and the paths that the tree gives are those of the complete tree over its hashes.
  pub root_lem :
      root tree ≡ ok (node (node_hash sha256) (leaf_at sha256 tree.sorted_addr_hashes) tree.depth 0)
  unfolding root
  root_lem =
      ap (λ l. or_panic (last_first l)) is_tree.all_levels
      ∙ ap or_panic
          (last_first-tree_levels sha256 (leaf_at sha256 tree.sorted_addr_hashes) 0 tree.depth)
      ∙ ap (λ l. ok (node (node_hash sha256) (leaf_at sha256 tree.sorted_addr_hashes) l 0))
          (omega arith)

  inclusion_proof_lem :
      (index : ℕ)
      → index < 2 ^ tree.depth
      → inclusion_proof tree index
        ≡ ok (record {
          addr_hash = get_or tree.sorted_addr_hashes index zero_bytes;
          index = index;
          siblings =
              siblings_of
                (node_hash sha256)
                (leaf_at sha256 tree.sorted_addr_hashes)
                tree.depth
                0
                index;
        })
  unfolding inclusion_proof
  inclusion_proof_lem index h =
      rw
        (
          is_tree.all_levels,
          proof_loop-tree_levels sha256 (leaf_at sha256 tree.sorted_addr_hashes) tree.depth 0 index
              h,
          get_elem_lem tree.sorted_addr_hashes index zero_bytes (omega (arith, is_tree.size)),
        )
        refl

  -- The witness for a hash that the vector is cut at place `pos` by.
  abbrev pub witness_at : ℕ → NonMembershipWitness
  witness_at pos = record {
    sanctions_root = node (node_hash sha256) (leaf_at sha256 tree.sorted_addr_hashes) tree.depth 0;
    left_leaf = get_or tree.sorted_addr_hashes (pos - 1) zero_bytes;
    right_leaf = get_or tree.sorted_addr_hashes pos zero_bytes;
    left_proof =
        siblings_of (node_hash sha256) (leaf_at sha256 tree.sorted_addr_hashes) tree.depth 0
          (pos - 1);
    right_proof =
        siblings_of (node_hash sha256) (leaf_at sha256 tree.sorted_addr_hashes) tree.depth 0 pos;
    left_index = pos - 1;
    right_index = pos;
    tree_depth = tree.depth;
  }

  pub non_membership_witness-listed :
      (address : Bytes)
      → is_sanctioned sha256 tree address ≡ true
      → non_membership_witness sha256 tree address ≡ err listed
  unfolding non_membership_witness is_sanctioned
  non_membership_witness-listed address h =
      let stands =
        sym (
          contains-partition_point (hash_addr sha256 address) tree.sorted_addr_hashes
            is_tree.ascending)
        ∙ h in
      rw stands refl

  module _ (h : Bytes) (clean : contains h tree.sorted_addr_hashes ≡ false)
      (array : IsArray 32 h) where
    place_of :
        (x : Bytes)
        → is_listed sha256 addresses x ≡ true
        → (i : ℕ) × (i < length tree.sorted_addr_hashes)
          × (get_or tree.sorted_addr_hashes i zero_bytes ≡ x)
    place_of x e = contains-get_or x tree.sorted_addr_hashes zero_bytes (is_tree.members x ∙ e)

    not_least : IsUpTo h zero_bytes → ⊥
    not_least least =
        let e = bytes_ltb_connected zero_bytes h least (IsUpTo-least 32 h array) in
        cc (e, clean, is_tree.members zero_bytes, zero_listed sha256 addresses)

    -- The least and the greatest array are in the vector, and `h` is neither.
    pub cut_above : 0 < partition_point h tree.sorted_addr_hashes
    cut_above = elim (Bool-cases (nat_eq (partition_point h tree.sorted_addr_hashes) 0)) [
      | inl first ↦
          let (i, lt, e) = place_of zero_bytes (zero_listed sha256 addresses) in
          let pos : partition_point h tree.sorted_addr_hashes ≡ 0 = ground (arith, first) in
          let stop = partition_point_stop h tree.sorted_addr_hashes zero_bytes (omega arith) in
          absurd (
            not_least (
              IsUpTo-trans h (get_or tree.sorted_addr_hashes 0 zero_bytes) zero_bytes
                (subst (λ k. IsUpTo h (get_or tree.sorted_addr_hashes k zero_bytes)) pos stop)
                (subst (IsUpTo (get_or tree.sorted_addr_hashes 0 zero_bytes)) e (
                  IsAscending-get_or tree.sorted_addr_hashes 0 i zero_bytes is_tree.ascending
                    (omega arith) lt))))
      | inr later ↦ ground (arith, later)
    ]

    pub cut_below : partition_point h tree.sorted_addr_hashes < length tree.sorted_addr_hashes
    cut_below =
        let (i, lt, e) = place_of max_bytes (max_listed sha256 addresses) in
        elim (Bool-cases (ltb i (partition_point h tree.sorted_addr_hashes))) [
          | inl before ↦ absurd (
              cc (
                e,
                IsUpTo-greatest 32 h array,
                partition_point-below h tree.sorted_addr_hashes i zero_bytes
                    (ground (arith, before)) lt,
              ))
          | inr after ↦ ground (arith, after, lt)
        ]

    pub left_below :
        bytes_ltb
          (get_or tree.sorted_addr_hashes
            (partition_point h tree.sorted_addr_hashes - 1)
            zero_bytes)
          h
        ≡ true
    left_below =
        partition_point-below h tree.sorted_addr_hashes
          (partition_point h tree.sorted_addr_hashes - 1) zero_bytes (omega (arith, cut_above))
          (omega (arith, cut_above, cut_below))

    stands_elsewhere :
        stands_at h (get_elem? tree.sorted_addr_hashes (partition_point h tree.sorted_addr_hashes))
        ≡ false
    stands_elsewhere =
        sym (contains-partition_point h tree.sorted_addr_hashes is_tree.ascending) ∙ clean

    pub right_above :
        bytes_ltb h
          (get_or tree.sorted_addr_hashes (partition_point h tree.sorted_addr_hashes) zero_bytes)
        ≡ true
    right_above =
        let x =
          get_or tree.sorted_addr_hashes (partition_point h tree.sorted_addr_hashes) zero_bytes in
        elim (Bool-cases (bytes_ltb h x)) [
          | inl above ↦ above
          | inr below ↦
              let stop = partition_point_stop h tree.sorted_addr_hashes zero_bytes cut_below in
              let same = bytes_ltb_connected h x below stop in
              absurd (
                cc (
                  same,
                  bytes_eq_self h,
                  stands_elsewhere,
                  get_elem_lem tree.sorted_addr_hashes (partition_point h tree.sorted_addr_hashes)
                      zero_bytes cut_below,
                ))
        ]

  pub non_membership_witness-clean :
      (address : Bytes)
      → is_sanctioned sha256 tree address ≡ false
      → IsArray 32 (hash_addr sha256 address)
      → non_membership_witness sha256 tree address
        ≡ ok (witness_at (partition_point (hash_addr sha256 address) tree.sorted_addr_hashes))
  unfolding non_membership_witness is_sanctioned
  non_membership_witness-clean address clean array =
      let h = hash_addr sha256 address in
      let pos = partition_point h tree.sorted_addr_hashes in
      let above = cut_above h clean array in
      let below = cut_below h clean array in
      let second : nat_eq pos 0 ≡ false = ground (arith, above) in
      rw
        (
          stands_elsewhere h clean array,
          second,
          inclusion_proof_lem (pos - 1) (omega (arith, above, below, is_tree.size)),
          inclusion_proof_lem pos (omega (arith, below, is_tree.size)),
          root_lem,
          get_elem_lem tree.sorted_addr_hashes (pos - 1) zero_bytes (omega (arith, above, below)),
          get_elem_lem tree.sorted_addr_hashes pos zero_bytes below,
        )
        refl
