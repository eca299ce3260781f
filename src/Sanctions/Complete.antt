-- ===== src/Sanctions/Complete.antt =====
-- The witnesses that the oracle hands out, and the program that checks them.
use native.Mathlib.Nat.{pow-le-pow_right}
use obscura_network.Prelude.{
  ℕ, ◌+◌, ◌-◌, ◌^◌, ◌≤◌, ◌<◌, ◌≡◌, ◌⊎◌, Bool-cases, refl, ap, ◌∙◌, subst, inl, inr, true, false,
  List, ◌++◌, Bytes, length, arith, ok, err,
}
use obscura_network.Merkle.{climb}
use obscura_network.Merkle.Insert.{shr-zero}
use obscura_network.Merkle.Tree.{node}
use obscura_network.Merkle.Inclusion.{siblings_of, climb-siblings_of}
use obscura_network.Merkle.Verify.{length-siblings_of}
use obscura_network.Sanctions.Order.{IsArray}
use obscura_network.Sanctions.Sort.{contains}
use obscura_network.Sanctions.Oracle.{
  addr_tag, hash_addr, hash_leaf, SanctionsMerkleTree, NonMembershipWitness, listed, build,
  non_membership_witness, is_sanctioned, root, partition_point,
}
use obscura_network.Sanctions.Levels.{node_hash}
use obscura_network.Sanctions.Build.{is_listed, leaf_at, IsTree, build-IsTree}
use obscura_network.Sanctions.Witness.{
  root_lem, cut_above, cut_below, left_below, right_above, witness_at,
  non_membership_witness-listed, non_membership_witness-clean,
}
use obscura_network.Sanctions.Circuit as Circuit
use obscura_network.Sanctions.Circuit.{
  SanctionsWitness, SanctionsPublicOutputs, verify_merkle_proof, sanctions_circuit-assertions,
  sanctions_circuit, recipient_commitment,
}
use obscura_network.Sanctions.Paths.{verify_merkle_proof_iff}

-- The program's input for a witness of the oracle.
abbrev pub circuit_witness : Bytes → NonMembershipWitness → ℕ → SanctionsWitness
circuit_witness recipient w timestamp = record {
  recipient = recipient;
  sanctions_root = w.sanctions_root;
  left_leaf = w.left_leaf;
  right_leaf = w.right_leaf;
  left_proof = w.left_proof;
  right_proof = w.right_proof;
  left_index = w.left_index;
  right_index = w.right_index;
  tree_depth = w.tree_depth;
  proof_timestamp = timestamp;
}

-- A tree that was built is the tree over its addresses.
pub built-IsTree :
    (sha256 : Bytes → Bytes) (hash_array : (x : Bytes) → IsArray 32 (sha256 x))
    (addresses : List Bytes) (tree : SanctionsMerkleTree)
    → length addresses + 2 ≤ 2 ^ 63
    → build sha256 addresses ≡ ok tree
    → (tree.depth < 64) × IsTree sha256 addresses tree
built-IsTree sha256 hash_array addresses tree bound h =
    let (t, e, low, is_tree) = build-IsTree sha256 hash_array addresses bound in
    let same : t ≡ tree = cc (e, h) in
    (subst (λ u. u.depth < 64) same low, subst (IsTree sha256 addresses) same is_tree)

path_accepted :
    (sha256 : Bytes → Bytes) (leaves : ℕ → Bytes) (leaf : Bytes) (depth i : ℕ)
    → leaf ≡ leaves i
    → i < 2 ^ depth
    → verify_merkle_proof sha256 leaf i
        (siblings_of (node_hash sha256) leaves depth 0 i)
        (node (node_hash sha256) leaves depth 0)
        depth
      ≡ true
unfolding node
path_accepted sha256 leaves leaf depth i e h =
    (verify_merkle_proof_iff sha256 leaf i (siblings_of (node_hash sha256) leaves depth 0 i)
        (node (node_hash sha256) leaves depth 0) depth).1
      (
        length-siblings_of (node_hash sha256) leaves depth 0 i,
        ap (λ c. climb (node_hash sha256) i c (siblings_of (node_hash sha256) leaves depth 0 i)) e
            ∙ (climb-siblings_of (node_hash sha256) leaves depth 0 depth i (omega arith)
                ∙ ap (node (node_hash sha256) leaves depth) (shr-zero depth i h)),
      )

-- The oracle has a witness for an address, and the program accepts it: what it makes public are the
-- commitment to the address, the tree's root, the claim that the address is clean, and the time.
abbrev pub IsCleared : (Bytes → Bytes) → SanctionsMerkleTree → Bytes → ℕ → Type 0
IsCleared sha256 tree address timestamp =
    (w : NonMembershipWitness) × (non_membership_witness sha256 tree address ≡ ok w)
    × (root tree ≡ ok w.sanctions_root)
    × (sanctions_circuit sha256 (circuit_witness address w timestamp)
        ≡ ok (record {
          recipient_commitment = recipient_commitment sha256 address;
          sanctions_root = w.sanctions_root;
          is_clean = true;
          proof_timestamp = timestamp;
        }))

module _ (sha256 : Bytes → Bytes) (hash_array : (x : Bytes) → IsArray 32 (sha256 x))
    (addresses : List Bytes) (tree : SanctionsMerkleTree) (low : tree.depth < 64)
    (is_tree : IsTree sha256 addresses tree) where
  clean-IsCleared :
      (address : Bytes) (timestamp : ℕ)
      → contains (hash_addr sha256 address) tree.sorted_addr_hashes ≡ false
      → IsCleared sha256 tree address timestamp
  unfolding hash_addr Circuit.hash_addr hash_leaf Circuit.hash_leaf is_sanctioned
  clean-IsCleared address timestamp absent =
      let h = hash_addr sha256 address in
      let pos = partition_point h tree.sorted_addr_hashes in
      let array = hash_array (addr_tag ++ address) in
      let above = cut_above sha256 addresses tree is_tree h absent array in
      let below : pos < 2 ^ tree.depth =
        omega (arith, cut_below sha256 addresses tree is_tree h absent array, is_tree.size) in
      let small = pow-le-pow_right {n = 2} (omega arith) {i = tree.depth} {j = 63} (omega arith) in
      let leaves = leaf_at sha256 tree.sorted_addr_hashes in
      let w = witness_at sha256 addresses tree is_tree pos in
      (
        w,
        non_membership_witness-clean sha256 addresses tree is_tree address absent array,
        root_lem sha256 addresses tree is_tree,
        (sanctions_circuit-assertions sha256 (circuit_witness address w timestamp) _).1 (
          omega (arith, above, below, small),
          left_below sha256 addresses tree is_tree h absent array,
          right_above sha256 addresses tree is_tree h absent array,
          path_accepted sha256 leaves _ tree.depth (pos - 1) refl (omega (arith, below)),
          path_accepted sha256 leaves _ tree.depth pos refl below,
          refl,
        ),
      )

-- On a tree that was built: either the hash of an address is listed, that is, it is the hash of an
-- address of the list or a sentinel, and then the oracle calls the address sanctioned and refuses a
-- witness with the error of that name; or it is not listed, the oracle does not call it sanctioned,
-- and it has a witness that the program accepts.
pub oracle_answers :
    (sha256 : Bytes → Bytes) (hash_array : (x : Bytes) → IsArray 32 (sha256 x))
    (addresses : List Bytes) (tree : SanctionsMerkleTree) (address : Bytes) (timestamp : ℕ)
    → length addresses + 2 ≤ 2 ^ 63
    → build sha256 addresses ≡ ok tree
    → ((is_listed sha256 addresses (hash_addr sha256 address) ≡ true)
        × (is_sanctioned sha256 tree address ≡ true)
        × (non_membership_witness sha256 tree address ≡ err listed))
      ⊎ ((is_listed sha256 addresses (hash_addr sha256 address) ≡ false)
          × (is_sanctioned sha256 tree address ≡ false)
          × IsCleared sha256 tree address timestamp)
unfolding is_sanctioned
oracle_answers sha256 hash_array addresses tree address timestamp bound built =
    let (low, is_tree) = built-IsTree sha256 hash_array addresses tree bound built in
    let members = is_tree.members (hash_addr sha256 address) in
    elim (Bool-cases (is_listed sha256 addresses (hash_addr sha256 address))) [
      | inl on_list ↦ inl (
        on_list,
        members ∙ on_list,
        non_membership_witness-listed sha256 addresses tree is_tree address (members ∙ on_list),
      )
      | inr clean ↦ inr (
        clean,
        members ∙ clean,
        clean-IsCleared sha256 hash_array addresses tree low is_tree address timestamp
            (members ∙ clean),
      )
    ]
