-- ===== src/Helios/Ssz.antt =====
-- crates/provers/sp1/guest-helios/src/ssz.rs, and the header of types.rs.
use obscura_network.Prelude.{
  ℕ, ◌+◌, ◌/◌, ◌%◌, ◌^◌, Bool, false, List, [], ◌∷◌, ◌++◌, Bytes, length, take, replicate, nat_eq,
  ◌==◌, Bytes_Eq, if◌then◌else◌,
}
use obscura_network.Merkle.{zero_bytes}
use obscura_network.Privacy.Types.{to_le_bytes}

pub record BeaconBlockHeader : Type 0 where
  pub slot : ℕ
  pub proposer_index : ℕ
  pub parent_root : Bytes
  pub state_root : Bytes
  pub body_root : Bytes

-- The 4 bytes of the domain of the sync committee.
abbrev pub domain_sync_committee : Bytes
domain_sync_committee = 7 ∷ 0 ∷ 0 ∷ 0 ∷ []

-- A u64 as a leaf: 8 bytes, the lowest first, and 24 zeros.
unfoldable pub uint64_leaf : ℕ → Bytes
unfolding to_le_bytes
uint64_leaf n = to_le_bytes 8 n ++ replicate 24 0

module _ (sha256 : Bytes → Bytes) where
  unfoldable pub sha256_pair : Bytes → Bytes → Bytes
  sha256_pair left right = sha256 (left ++ right)

  unfoldable pub merkle_root_8 : (l0 l1 l2 l3 l4 l5 l6 l7 : Bytes) → Bytes
  merkle_root_8 l0 l1 l2 l3 l4 l5 l6 l7 =
      let n0 = sha256_pair l0 l1 in
      let n1 = sha256_pair l2 l3 in
      let n2 = sha256_pair l4 l5 in
      let n3 = sha256_pair l6 l7 in sha256_pair (sha256_pair n0 n1) (sha256_pair n2 n3)

  unfoldable pub hash_tree_root_beacon_header : BeaconBlockHeader → Bytes
  unfolding merkle_root_8
  hash_tree_root_beacon_header h =
      merkle_root_8 (uint64_leaf h.slot) (uint64_leaf h.proposer_index) h.parent_root h.state_root
        h.body_root zero_bytes zero_bytes zero_bytes

  unfoldable pub hash_tree_root_fork_data : Bytes → Bytes → Bytes
  hash_tree_root_fork_data fork_version genesis_validators_root =
      sha256_pair (fork_version ++ replicate 28 0) genesis_validators_root

  unfoldable pub compute_domain : Bytes → Bytes → Bytes → Bytes
  compute_domain domain_type fork_version genesis_validators_root =
      domain_type ++ take 28 (hash_tree_root_fork_data fork_version genesis_validators_root)

  unfoldable pub compute_signing_root : Bytes → Bytes → Bytes
  compute_signing_root header_root domain = sha256_pair header_root domain

  -- `for (i, &sibling) in branch.iter().enumerate()`, from level `i` on
  unfoldable pub branch_loop : ℕ → ℕ → Bytes → List Bytes → Bytes
  branch_loop i leaf_index value [] = value
  branch_loop i leaf_index value (sibling ∷ branch) =
      branch_loop (i + 1) leaf_index
        (if nat_eq (leaf_index / 2 ^ i % 2) 1
          then sha256_pair sibling value
          else sha256_pair value sibling)
        branch

  unfoldable pub verify_merkle_branch : Bytes → List Bytes → ℕ → ℕ → Bytes → Bool
  unfolding branch_loop
  verify_merkle_branch leaf branch depth leaf_index root =
      if nat_eq (length branch) depth then branch_loop 0 leaf_index leaf branch == root else false
