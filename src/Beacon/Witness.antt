-- ===== src/Beacon/Witness.antt =====
-- `build_helios_witness` of beacon_api.rs.
use obscura_network.Prelude.{
  ℕ, zero, suc, ◌+◌, ◌/◌, ◌%◌, ◌^◌, Option, [], ◌∷◌, Bytes, length, nat_eq, Result, ok, ◌>>=◌, ◌>>◌,
  guard,
}
use obscura_network.Helios.Step.{HeliosWitness}
use obscura_network.Beacon.Types.{
  Failure, wrong_length, LightClientFinalityUpdateJson, GenesisConfigJson,
}
use obscura_network.Beacon.Parse.{
  hex_decode, parse_bytes32, parse_fork_version, parse_branch_6, parse_branch_4,
  parse_beacon_header,
}
use obscura_network.Beacon.Ssz.{ssz_execution_payload_root, merkle_branch_32}

-- `count_ones` of a number of that many bits.
unfoldable pub count_ones : ℕ → ℕ → ℕ
count_ones zero b = 0
count_ones (suc bits) b = b % 2 + count_ones bits (b / 2)

-- `iter().map(|b| b.count_ones()).sum::<u32>()`, before it is cut to 16 bits.
unfoldable pub sum_ones : Bytes → ℕ
unfolding count_ones
sum_ones [] = 0
sum_ones (b ∷ bytes) = count_ones 8 b + sum_ones bytes

unfoldable pub build_helios_witness :
    (Bytes → Bytes)
    → (Bytes → Option Bytes)
    → LightClientFinalityUpdateJson
    → GenesisConfigJson
    → Bytes
    → Bytes
    → Result Failure HeliosWitness
build_helios_witness sha256 hex update genesis sync_committee_pubkey prev_trusted_root = do
  attested_header ← parse_beacon_header hex update.attested_header.beacon
  finalized_header ← parse_beacon_header hex update.finalized_header.beacon
  finality_branch ← parse_branch_6 hex update.finality_branch
  bits ← hex_decode hex update.sync_aggregate.sync_committee_bits
  let participation = sum_ones bits % 2 ^ 32 % 2 ^ 16
  sig_bytes ← hex_decode hex update.sync_aggregate.sync_committee_signature
  guard (nat_eq (length sig_bytes) 96) wrong_length
  fork_version ← parse_fork_version hex genesis.genesis_fork_version
  genesis_validators_root ← parse_bytes32 hex genesis.genesis_validators_root
  body_to_exec_branch ← parse_branch_4 hex update.finalized_header.execution_branch
  payload ← ssz_execution_payload_root sha256 hex update.finalized_header.execution
  exec_to_hash_branch ← merkle_branch_32 sha256 payload.1 12
  execution_block_hash ← parse_bytes32 hex update.finalized_header.execution.block_hash
  ok (record {
    prev_trusted_root = prev_trusted_root;
    attested_header = attested_header;
    finalized_header = finalized_header;
    finality_branch = finality_branch;
    sync_committee_participation = participation;
    sync_aggregate_signature = sig_bytes;
    sync_committee_pubkey = sync_committee_pubkey;
    fork_version = fork_version;
    genesis_validators_root = genesis_validators_root;
    execution_payload_root = payload.0;
    body_to_exec_branch = body_to_exec_branch;
    execution_block_hash = execution_block_hash;
    exec_to_hash_branch = exec_to_hash_branch;
  })
