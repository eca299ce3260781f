-- ===== src/Tests/Oracle.antt =====
-- Runs of the sanctions oracle and of the program that checks its witnesses.
use obscura_network.Prelude.{
  ℕ, ◌<◌, ◌≡◌, ◌⊎◌, refl, List, [], ◌∷◌, ◌++◌, Bytes, replicate, take, arith, ok, false, bytes_eq,
}
use obscura_network.Merkle.{zero_bytes}
use obscura_network.Merkle.Inclusion.{Collision}
use obscura_network.Sanctions.Order.{bytes_ltb}
use obscura_network.Sanctions.Sort.{insert_sorted, sort, dedup_from, dedup, resize, contains}
use obscura_network.Sanctions.Power.{next_power_of_two, trailing_zeros}
use obscura_network.Sanctions.Oracle.{
  max_bytes, addr_tag, hash_addr, hash_leaf, hash_node, SanctionsMerkleTree, listed_hashes, pair_up,
  levels_loop, build, last_first, root, is_sanctioned,
}
use obscura_network.Sanctions.Build.{IsTree, build-IsTree}
use obscura_network.Sanctions.Circuit as Circuit
use obscura_network.Sanctions.Circuit.{
  SanctionsWitness, SanctionsPublicOutputs, sanctions_circuit, verify_merkle_proof, path_loop,
  clean_outputs,
}
use obscura_network.Sanctions.Sound.{sanctions_circuit_sound}
use obscura_network.Tests.Data.{toy_hash, toy_hash-IsArray}

abbrev pub addresses : List Bytes
addresses = replicate 32 9 ∷ replicate 32 5 ∷ []

abbrev hashed : ℕ → Bytes
hashed b = addr_tag ++ replicate 28 b

abbrev pub leaf : Bytes → Bytes
leaf h = b'l' ∷ b'e' ∷ b'a' ∷ b'f' ∷ take 28 h

abbrev pub above : Bytes → Bytes
above h = b'n' ∷ b'o' ∷ b'd' ∷ b'e' ∷ take 28 h

abbrev pub tree : SanctionsMerkleTree
tree = record {
  sorted_addr_hashes = zero_bytes ∷ hashed 5 ∷ hashed 9 ∷ max_bytes ∷ [];
  levels =
      (leaf zero_bytes ∷ leaf (hashed 5) ∷ leaf (hashed 9) ∷ leaf max_bytes ∷ [])
      ∷ (above (leaf zero_bytes) ∷ above (leaf (hashed 9)) ∷ [])
      ∷ (above (above (leaf zero_bytes)) ∷ [])
      ∷ [];
  depth = 2;
}

pub tree_lem : build toy_hash addresses ≡ ok tree
unfolding build listed_hashes hash_addr hash_leaf hash_node insert_sorted sort dedup_from dedup
    resize next_power_of_two trailing_zeros pair_up levels_loop bytes_ltb bytes_eq
tree_lem = refl

abbrev pub witness : SanctionsWitness
witness = record {
  recipient = replicate 32 7;
  sanctions_root = above (above (leaf zero_bytes));
  left_leaf = hashed 5;
  right_leaf = hashed 9;
  left_proof = leaf zero_bytes ∷ above (leaf (hashed 9)) ∷ [];
  right_proof = leaf max_bytes ∷ above (leaf zero_bytes) ∷ [];
  left_index = 1;
  right_index = 2;
  tree_depth = 2;
  proof_timestamp = 1000;
}

pub witness_lem : sanctions_circuit toy_hash witness ≡ ok (clean_outputs toy_hash witness)
unfolding sanctions_circuit Circuit.hash_addr Circuit.hash_leaf Circuit.hash_node
    verify_merkle_proof path_loop bytes_ltb bytes_eq
witness_lem = refl

pub root_lem : root tree ≡ ok witness.sanctions_root
unfolding root last_first
root_lem = refl

build-IsTree_example :
    (made : SanctionsMerkleTree) × (build toy_hash addresses ≡ ok made)
    × (made.depth < 64)
    × IsTree toy_hash addresses made
build-IsTree_example = build-IsTree toy_hash toy_hash-IsArray addresses (omega arith)

sanctions_circuit_sound_example :
    ((is_sanctioned toy_hash tree (replicate 32 7) ≡ false)
      × (contains (replicate 32 7) addresses ≡ false))
    ⊎ Collision toy_hash
sanctions_circuit_sound_example =
    sanctions_circuit_sound toy_hash toy_hash-IsArray addresses tree witness
      (clean_outputs toy_hash witness) (omega arith) tree_lem (refl, (refl, tt)) (refl, (refl, tt))
      (omega arith) root_lem witness_lem
