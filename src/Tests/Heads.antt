-- ===== src/Tests/Heads.antt =====
-- A head that the relayer builds, for a hash that keeps the first 32 bytes.
use obscura_network.Prelude.{
  ◌≡◌, ◌≢◌, ◌⊎◌, refl, true, some, List, [], ◌∷◌, Bytes, bytes_eq, replicate, ok, err, arith,
  Bytes_Eq,
}
use obscura_network.Merkle.{zero_bytes}
use obscura_network.Merkle.Tree.{leaves_of}
use obscura_network.Merkle.Inclusion.{Collision}
use obscura_network.Privacy.Types.{to_le_bytes}
use obscura_network.Sanctions.Power.{next_power_of_two}
use obscura_network.Bridge.Keys.{trim}
use obscura_network.Text.{
  trim_start_matches, from_str_radix, read_radix, to_digit, parse_u64, parse_u128,
}
use obscura_network.Helios.Ssz.{
  BeaconBlockHeader, verify_merkle_branch, sha256_pair, uint64_leaf, hash_tree_root_beacon_header,
}
use obscura_network.Helios.Step.{HeliosWitness, HeliosPublicOutputs, helios_step, not_in_payload}
use obscura_network.Helios.Binding.{IsWitness}
use obscura_network.Bridge.Verifier.{check_committed, starts_with}
use obscura_network.Beacon.Types.{
  BeaconHeaderJson, ExecutionPayloadHeaderJson, LightClientHeaderJson,
  LightClientFinalityUpdateJson, GenesisConfigJson,
}
use obscura_network.Beacon.Parse.{
  parse_beacon_header, parse_number, parse_bytes32, hex_decode, parse_branch_6, parse_nodes,
  parse_fork_version, parse_branch_4, parse_uint256_le,
}
use obscura_network.Beacon.Ssz.{
  merkle_root_vec, merkle_branch_32, ssz_execution_payload_root, payload_leaves,
  ssz_bytes_vector_root, branch_rounds, chunks, chunks_loop, next_level, overwrite, root_loop,
  ssz_byte_list_root, write_chunks,
}
use obscura_network.Beacon.Levels.{merkle_branch_32-verify}
use obscura_network.Beacon.Witness.{build_helios_witness, count_ones, sum_ones}
use obscura_network.Relayer.Loop.{helios_inputs}
use obscura_network.Relayer.Heads.{zeros_4, committed_by, built-provable, relayed_head_rejected}
use obscura_network.Tests.Data.{toy_hash, length-fit}

abbrev ones : Bytes
ones = replicate 32 1

merkle_branch_32-verify_example :
    (root : Bytes) × (branch : List Bytes) × (merkle_root_vec toy_hash (replicate 32 ones)
      ≡ ok root)
    × (merkle_branch_32 toy_hash (replicate 32 ones) 12 ≡ ok branch)
    × (verify_merkle_branch toy_hash (leaves_of (replicate 32 ones) 12) branch 5 12 root ≡ true)
merkle_branch_32-verify_example =
    merkle_branch_32-verify toy_hash (replicate 32 ones) 12 refl (omega arith)

abbrev threes : Bytes
threes = replicate 32 3

abbrev one : Bytes
one = b'1' ∷ []

-- The parent's hash is what the hash makes of the header of slot 1.
abbrev slot_1 : Bytes
slot_1 = 1 ∷ replicate 31 0

abbrev payload : ExecutionPayloadHeaderJson
payload = record {
  parent_hash = slot_1;
  fee_recipient = replicate 20 3;
  state_root = threes;
  receipts_root = threes;
  logs_bloom = replicate 256 3;
  prev_randao = threes;
  block_number = one;
  gas_limit = one;
  gas_used = one;
  timestamp = one;
  extra_data = [];
  base_fee_per_gas = one;
  block_hash = replicate 32 7;
  transactions_root = threes;
  withdrawals_root = threes;
  blob_gas_used = one;
  excess_blob_gas = one;
}

abbrev beacon_header : BeaconHeaderJson
beacon_header = record {
  slot = one;
  proposer_index = one;
  parent_root = threes;
  state_root = threes;
  body_root = threes;
}

abbrev client_header : LightClientHeaderJson
client_header = record {
  beacon = beacon_header;
  execution = payload;
  execution_branch = replicate 4 threes;
}

abbrev finality : LightClientFinalityUpdateJson
finality = record {
  attested_header = client_header;
  finalized_header = client_header;
  finality_branch = replicate 6 threes;
  sync_aggregate = record {
    sync_committee_bits = replicate 64 255;
    sync_committee_signature = replicate 96 1;
  };
  signature_slot = one;
}

abbrev genesis_config : GenesisConfigJson
genesis_config = record {
  genesis_validators_root = threes;
  genesis_fork_version = replicate 4 1;
  genesis_time = one;
}

abbrev header_1 : BeaconBlockHeader
header_1 = record {
  slot = 1;
  proposer_index = 1;
  parent_root = threes;
  state_root = threes;
  body_root = threes;
}

abbrev built : HeliosWitness
built = record {
  prev_trusted_root = zero_bytes;
  attested_header = header_1;
  finalized_header = header_1;
  finality_branch = replicate 6 threes;
  sync_committee_participation = 512;
  sync_aggregate_signature = replicate 96 1;
  sync_committee_pubkey = replicate 48 1;
  fork_version = replicate 4 1;
  genesis_validators_root = threes;
  execution_payload_root = slot_1;
  body_to_exec_branch = replicate 4 threes;
  execution_block_hash = replicate 32 7;
  exec_to_hash_branch = threes ∷ threes ∷ slot_1 ∷ slot_1 ∷ slot_1 ∷ [];
}

built_lem :
    build_helios_witness toy_hash (λ b. some b) finality genesis_config (replicate 48 1) zero_bytes
    ≡ ok built
unfolding build_helios_witness parse_beacon_header parse_number parse_u64 from_str_radix read_radix
    to_digit parse_bytes32 hex_decode parse_branch_6 parse_nodes parse_fork_version parse_branch_4
    ssz_execution_payload_root payload_leaves ssz_bytes_vector_root merkle_root_vec
    next_power_of_two parse_uint256_le branch_rounds chunks chunks_loop merkle_branch_32 next_level
    overwrite root_loop ssz_byte_list_root write_chunks count_ones sum_ones trim starts_with
    sha256_pair uint64_leaf to_le_bytes parse_u128 trim_start_matches bytes_eq
built_lem = refl

built-provable_example : IsWitness built × (helios_step toy_hash built ≢ err not_in_payload)
built-provable_example =
    built-provable toy_hash (length-fit 32) (λ b. some b) finality genesis_config (replicate 48 1)
      zero_bytes built built_lem

abbrev outputs : HeliosPublicOutputs
outputs = record {
  prev_trusted_root = zero_bytes;
  new_beacon_root = slot_1;
  new_slot = 1;
  execution_block_hash = replicate 32 7;
}

step_lem : helios_step toy_hash built ≡ ok outputs
unfolding helios_step verify_merkle_branch bytes_eq sha256_pair hash_tree_root_beacon_header
    uint64_leaf
step_lem = refl

check_lem : check_committed (committed_by outputs) (helios_inputs zero_bytes 1 built) ≡ ok tt
unfolding check_committed helios_inputs bytes_eq
check_lem = refl

relayed_head_rejected_example : (zeros_4 toy_hash ≡ zero_bytes) ⊎ Collision toy_hash
relayed_head_rejected_example =
    relayed_head_rejected toy_hash (length-fit 32) (λ b. some b) finality genesis_config
      (replicate 48 1) zero_bytes zero_bytes 1 built outputs built_lem step_lem check_lem
