-- ===== src/Helios/Step.antt =====
-- crates/provers/sp1/guest-helios/src/bin/helios_step.rs and types.rs: a failed assertion ends the
-- run in an error. The domain and the signing root are computed there and not used.
use obscura_network.Prelude.{
  ℕ, not, List, Bytes, ◌==◌, Bytes_Eq, ltb, leb, replicate, Result, ok, ◌>>◌, guard,
}
use obscura_network.Helios.Ssz.{
  BeaconBlockHeader, hash_tree_root_beacon_header, verify_merkle_branch,
}

pub record HeliosWitness : Type 0 where
  pub prev_trusted_root : Bytes
  pub attested_header : BeaconBlockHeader
  pub finalized_header : BeaconBlockHeader
  pub finality_branch : List Bytes
  pub sync_committee_participation : ℕ
  pub sync_aggregate_signature : Bytes
  pub sync_committee_pubkey : Bytes
  pub fork_version : Bytes
  pub genesis_validators_root : Bytes
  pub execution_payload_root : Bytes
  pub body_to_exec_branch : List Bytes
  pub execution_block_hash : Bytes
  pub exec_to_hash_branch : List Bytes

pub record HeliosPublicOutputs : Type 0 where
  pub prev_trusted_root : Bytes
  pub new_beacon_root : Bytes
  pub new_slot : ℕ
  pub execution_block_hash : Bytes

-- The assertions that may fail.
pub data StepPanic : Type 0 where
  zero_slot finalized_after_attested not_finalized low_participation : StepPanic
  zero_signature zero_pubkey not_in_body not_in_payload : StepPanic

abbrev pub min_sync_committee_participation : ℕ
min_sync_committee_participation = 342

abbrev pub finalized_root_depth : ℕ
finalized_root_depth = 6

abbrev pub finalized_root_leaf_index : ℕ
finalized_root_leaf_index = 41

abbrev pub body_to_exec_depth : ℕ
body_to_exec_depth = 4

abbrev pub body_to_exec_leaf_index : ℕ
body_to_exec_leaf_index = 9

abbrev pub exec_to_hash_depth : ℕ
exec_to_hash_depth = 5

abbrev pub exec_to_hash_leaf_index : ℕ
exec_to_hash_leaf_index = 12

unfoldable pub helios_step : (Bytes → Bytes) → HeliosWitness → Result StepPanic HeliosPublicOutputs
helios_step sha256 witness = do
  let finalized_header_root = hash_tree_root_beacon_header sha256 witness.finalized_header
  guard (ltb 0 witness.finalized_header.slot) zero_slot
  guard (leb witness.finalized_header.slot witness.attested_header.slot) finalized_after_attested
  guard
      (verify_merkle_branch sha256 finalized_header_root witness.finality_branch
        finalized_root_depth finalized_root_leaf_index witness.attested_header.state_root)
      not_finalized
  guard (leb min_sync_committee_participation witness.sync_committee_participation)
      low_participation
  guard (not (witness.sync_aggregate_signature == replicate 96 0)) zero_signature
  guard (not (witness.sync_committee_pubkey == replicate 48 0)) zero_pubkey
  guard
      (verify_merkle_branch sha256 witness.execution_payload_root witness.body_to_exec_branch
        body_to_exec_depth body_to_exec_leaf_index witness.finalized_header.body_root)
      not_in_body
  guard
      (verify_merkle_branch sha256 witness.execution_block_hash witness.exec_to_hash_branch
        exec_to_hash_depth exec_to_hash_leaf_index witness.execution_payload_root)
      not_in_payload
  ok (record {
    prev_trusted_root = witness.prev_trusted_root;
    new_beacon_root = finalized_header_root;
    new_slot = witness.finalized_header.slot;
    execution_block_hash = witness.execution_block_hash;
  })
