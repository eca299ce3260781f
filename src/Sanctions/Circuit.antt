-- ===== src/Sanctions/Circuit.antt =====
-- crates/provers/sp1/guest-privacy: src/bin/sanctions.rs and its types of src/types.rs. A failed
-- assertion ends the run in an error; `left_index + 1` wraps, as in a release build.
use obscura_network.Prelude.{
  ℕ, ◌/◌, ◌%◌, Bool, true, false, List, [], ◌∷◌, ◌++◌, Bytes, ◌==◌, Bytes_Eq, length, nat_eq,
  wrapping_add, ◌≡◌, ◌↔◌, arith, if◌then◌else◌, Result, ok, ◌>>◌, guard,
}
use obscura_network.Sanctions.Order.{bytes_ltb}
use obscura_network.Sanctions.Oracle.{addr_tag, leaf_tag, node_tag}

module _ (sha256 : Bytes → Bytes) where
  unfoldable pub hash_addr : Bytes → Bytes
  hash_addr addr = sha256 (addr_tag ++ addr)

  unfoldable pub hash_leaf : Bytes → Bytes
  hash_leaf addr_hash = sha256 (leaf_tag ++ addr_hash)

  unfoldable pub hash_node : Bytes → Bytes → Bytes
  hash_node left right = sha256 (node_tag ++ (left ++ right))

  -- b"recipient"
  unfoldable pub recipient_commitment : Bytes → Bytes
  recipient_commitment addr =
      sha256 (b'r' ∷ b'e' ∷ b'c' ∷ b'i' ∷ b'p' ∷ b'i' ∷ b'e' ∷ b'n' ∷ b't' ∷ addr)

  -- The loop of `verify_merkle_proof`.
  unfoldable pub path_loop : ℕ → Bytes → List Bytes → Bytes
  path_loop idx current [] = current
  path_loop idx current (sibling ∷ proof) =
      path_loop (idx / 2)
        (if nat_eq (idx % 2) 0 then hash_node current sibling else hash_node sibling current) proof

  unfoldable pub verify_merkle_proof : Bytes → ℕ → List Bytes → Bytes → ℕ → Bool
  verify_merkle_proof leaf_hash index proof root depth =
      if nat_eq (length proof) depth then path_loop index leaf_hash proof == root else false

pub record SanctionsWitness : Type 0 where
  pub recipient : Bytes
  pub sanctions_root : Bytes
  pub left_leaf : Bytes
  pub right_leaf : Bytes
  pub left_proof : List Bytes
  pub right_proof : List Bytes
  pub left_index : ℕ
  pub right_index : ℕ
  pub tree_depth : ℕ
  pub proof_timestamp : ℕ

pub record SanctionsPublicOutputs : Type 0 where
  pub recipient_commitment : Bytes
  pub sanctions_root : Bytes
  pub is_clean : Bool
  pub proof_timestamp : ℕ

-- The assertions, in the order of the source.
pub data SanctionsPanic : Type 0 where
  not_adjacent not_above_left not_below_right invalid_left invalid_right : SanctionsPanic

unfoldable pub sanctions_circuit :
    (Bytes → Bytes) → SanctionsWitness → Result SanctionsPanic SanctionsPublicOutputs
sanctions_circuit sha256 witness = do
  guard (nat_eq (wrapping_add witness.left_index 1) witness.right_index) not_adjacent
  let addr_hash = hash_addr sha256 witness.recipient
  guard (bytes_ltb witness.left_leaf addr_hash) not_above_left
  guard (bytes_ltb addr_hash witness.right_leaf) not_below_right
  guard
      (verify_merkle_proof sha256 (hash_leaf sha256 witness.left_leaf) witness.left_index
        witness.left_proof witness.sanctions_root witness.tree_depth)
      invalid_left
  guard
      (verify_merkle_proof sha256 (hash_leaf sha256 witness.right_leaf) witness.right_index
        witness.right_proof witness.sanctions_root witness.tree_depth)
      invalid_right
  ok (record {
    recipient_commitment = recipient_commitment sha256 witness.recipient;
    sanctions_root = witness.sanctions_root;
    is_clean = true;
    proof_timestamp = witness.proof_timestamp;
  })

-- What is made public when all assertions hold.
abbrev pub clean_outputs : (Bytes → Bytes) → SanctionsWitness → SanctionsPublicOutputs
clean_outputs sha256 witness = record {
  recipient_commitment = recipient_commitment sha256 witness.recipient;
  sanctions_root = witness.sanctions_root;
  is_clean = true;
  proof_timestamp = witness.proof_timestamp;
}

-- The run ends well exactly when all five assertions hold.
pub sanctions_circuit-assertions :
    (sha256 : Bytes → Bytes) (w : SanctionsWitness) (out : SanctionsPublicOutputs)
    → (sanctions_circuit sha256 w ≡ ok out) ↔ (
        (wrapping_add w.left_index 1 ≡ w.right_index)
        × (bytes_ltb w.left_leaf (hash_addr sha256 w.recipient) ≡ true)
        × (bytes_ltb (hash_addr sha256 w.recipient) w.right_leaf ≡ true)
        × (verify_merkle_proof sha256
              (hash_leaf sha256 w.left_leaf)
              w.left_index
              w.left_proof
              w.sanctions_root
              w.tree_depth
            ≡ true)
        × (verify_merkle_proof sha256
              (hash_leaf sha256 w.right_leaf)
              w.right_index
              w.right_proof
              w.sanctions_root
              w.tree_depth
            ≡ true)
        × (out ≡ clean_outputs sha256 w))
unfolding sanctions_circuit
sanctions_circuit-assertions sha256 w out = ground arith
