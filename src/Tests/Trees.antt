-- ===== src/Tests/Trees.antt =====
-- The trees of a few leaves.
use obscura_network.Prelude.{
  ◌%◌, ◌^◌, ◌≡◌, ◌⊎◌, refl, true, some, List, [], ◌∷◌, Bytes, get_elem?, empty_map, arith,
}
use obscura_network.Merkle.{tree_depth, compute_insert, verify, build_proof_paths, MerkleProof}
use obscura_network.Merkle.Tree.{tree_root, leaves_of}
use obscura_network.Merkle.Insert.{filled_at}
use obscura_network.Merkle.Append.{compute_insert-tree_root, IsFilled-empty}
use obscura_network.Merkle.Inclusion.{Collision, siblings_of, All32-siblings_of, leaves_of-sized}
use obscura_network.Merkle.Verify.{verify_complete, verify_sound}
use obscura_network.Merkle.Paths.{build_proof_paths-verify}
use obscura_network.Tests.Data.{toy_hash, length-fit, commitment, nullifier, dollar}

abbrev leaves : List Bytes
leaves = commitment ∷ nullifier ∷ dollar ∷ []

compute_insert-tree_root_example :
    (compute_insert toy_hash commitment 0 (filled_at toy_hash empty_map)).0
    ≡ tree_root toy_hash (commitment ∷ [])
compute_insert-tree_root_example =
    compute_insert-tree_root toy_hash [] commitment empty_map (omega arith)
      (IsFilled-empty toy_hash empty_map)

abbrev proof_at_1 : MerkleProof
proof_at_1 = record {
  leaf_index = 1;
  siblings = siblings_of toy_hash (leaves_of leaves) tree_depth 0 1;
  root = tree_root toy_hash leaves;
}

verify_sound_example : (nullifier ≡ leaves_of leaves (1 % 2 ^ tree_depth)) ⊎ Collision toy_hash
verify_sound_example =
    verify_sound toy_hash (length-fit 32) leaves proof_at_1 nullifier (refl, (refl, (refl, tt)))
      refl
      (All32-siblings_of toy_hash (length-fit 32) (leaves_of leaves)
        (leaves_of-sized leaves (refl, (refl, (refl, tt)))) tree_depth 0 1)
      refl (verify_complete toy_hash leaves 1 (omega arith))

build_proof_paths-verify_example :
    (paths : List (List Bytes)) × (path : List Bytes) × (build_proof_paths toy_hash leaves
      ≡ some paths)
    × (get_elem? paths 1 ≡ some path)
    × (verify toy_hash
          (record { leaf_index = 1; siblings = path; root = tree_root toy_hash leaves })
          (leaves_of leaves 1)
        ≡ true)
build_proof_paths-verify_example =
    build_proof_paths-verify toy_hash leaves 1 (omega arith) (omega arith)
