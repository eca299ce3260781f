-- ===== src/Tests/Beacon.antt =====
-- A run of the light client's program.
use obscura_network.Prelude.{ℕ, ◌≡◌, ◌⊎◌, refl, Bytes, bytes_eq, replicate, arith, ok, Bytes_Eq}
use obscura_network.Merkle.{zero_bytes}
use obscura_network.Merkle.Inclusion.{Collision}
use obscura_network.Helios.Ssz.{
  BeaconBlockHeader, hash_tree_root_beacon_header, verify_merkle_branch, branch_loop, merkle_root_8,
  sha256_pair, uint64_leaf,
}
use obscura_network.Helios.Step.{HeliosWitness, HeliosPublicOutputs, helios_step}
use obscura_network.Helios.Binding.{IsWitness, helios_step_binding}
use obscura_network.Tests.Data.{toy_hash, length-fit}

abbrev threes : Bytes
threes = replicate 32 3

abbrev header_at : ℕ → BeaconBlockHeader
header_at slot = record {
  slot = slot;
  proposer_index = 1;
  parent_root = zero_bytes;
  state_root = threes;
  body_root = threes;
}

abbrev witness : HeliosWitness
witness = record {
  prev_trusted_root = zero_bytes;
  attested_header = header_at 20;
  finalized_header = header_at 10;
  finality_branch = replicate 6 threes;
  sync_committee_participation = 400;
  sync_aggregate_signature = replicate 96 1;
  sync_committee_pubkey = replicate 48 1;
  fork_version = replicate 4 0;
  genesis_validators_root = zero_bytes;
  execution_payload_root = threes;
  body_to_exec_branch = replicate 4 threes;
  execution_block_hash = replicate 32 9;
  exec_to_hash_branch = replicate 5 threes;
}

abbrev outputs : HeliosPublicOutputs
outputs = record {
  prev_trusted_root = zero_bytes;
  new_beacon_root = hash_tree_root_beacon_header toy_hash (header_at 10);
  new_slot = 10;
  execution_block_hash = replicate 32 9;
}

witness_lem : helios_step toy_hash witness ≡ ok outputs
unfolding helios_step verify_merkle_branch branch_loop merkle_root_8 sha256_pair uint64_leaf
    hash_tree_root_beacon_header bytes_eq
witness_lem = refl

witness-IsWitness : IsWitness witness
witness-IsWitness = record {
  finalized = record { slot = omega arith; body_root = refl };
  payload_root = refl;
  block_hash = refl;
  finality = (refl, (refl, (refl, (refl, (refl, (refl, tt))))));
  body_to_exec = (refl, (refl, (refl, (refl, tt))));
  exec_to_hash = (refl, (refl, (refl, (refl, (refl, tt)))));
}

-- The same step, from another root.
abbrev other : HeliosWitness
other = record witness { prev_trusted_root = threes }

other_lem : helios_step toy_hash other ≡ ok (record outputs { prev_trusted_root = threes })
unfolding helios_step verify_merkle_branch branch_loop merkle_root_8 sha256_pair uint64_leaf
    hash_tree_root_beacon_header bytes_eq
other_lem = refl

other-IsWitness : IsWitness other
other-IsWitness = record {
  finalized = record { slot = omega arith; body_root = refl };
  payload_root = refl;
  block_hash = refl;
  finality = (refl, (refl, (refl, (refl, (refl, (refl, tt))))));
  body_to_exec = (refl, (refl, (refl, (refl, tt))));
  exec_to_hash = (refl, (refl, (refl, (refl, (refl, tt)))));
}

helios_step_binding_example :
    ((outputs.new_beacon_root ≡ outputs.new_beacon_root)
      × (outputs.new_slot ≡ outputs.new_slot)
      × (outputs.execution_block_hash ≡ outputs.execution_block_hash))
    ⊎ Collision toy_hash
helios_step_binding_example =
    helios_step_binding toy_hash (length-fit 32) witness other outputs
      (record outputs { prev_trusted_root = threes }) witness-IsWitness other-IsWitness refl
      witness_lem other_lem
