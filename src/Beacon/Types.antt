-- ===== src/Beacon/Types.antt =====
-- The JSON types of beacon_api.rs, whose fields are texts, and the ways in which the client and the
-- relayer fail. The witness and its headers are those of the light client's program, whose layout
-- they share.
use obscura_network.Prelude.{List, Bytes, Option, none, some, Result, ok, err}

pub record BeaconHeaderJson : Type 0 where
  pub slot : Bytes
  pub proposer_index : Bytes
  pub parent_root : Bytes
  pub state_root : Bytes
  pub body_root : Bytes

pub record ExecutionPayloadHeaderJson : Type 0 where
  pub parent_hash : Bytes
  pub fee_recipient : Bytes
  pub state_root : Bytes
  pub receipts_root : Bytes
  pub logs_bloom : Bytes
  pub prev_randao : Bytes
  pub block_number : Bytes
  pub gas_limit : Bytes
  pub gas_used : Bytes
  pub timestamp : Bytes
  pub extra_data : Bytes
  pub base_fee_per_gas : Bytes
  pub block_hash : Bytes
  pub transactions_root : Bytes
  pub withdrawals_root : Bytes
  pub blob_gas_used : Bytes
  pub excess_blob_gas : Bytes

pub record LightClientHeaderJson : Type 0 where
  pub beacon : BeaconHeaderJson
  pub execution : ExecutionPayloadHeaderJson
  pub execution_branch : List Bytes

pub record SyncAggregateJson : Type 0 where
  pub sync_committee_bits : Bytes
  pub sync_committee_signature : Bytes

pub record LightClientFinalityUpdateJson : Type 0 where
  pub attested_header : LightClientHeaderJson
  pub finalized_header : LightClientHeaderJson
  pub finality_branch : List Bytes
  pub sync_aggregate : SyncAggregateJson
  pub signature_slot : Bytes

pub record GenesisConfigJson : Type 0 where
  pub genesis_validators_root : Bytes
  pub genesis_fork_version : Bytes
  pub genesis_time : Bytes

-- The kinds of `anyhow` errors; `panicked` is none of them: it ends the process.
pub data Failure : Type 0 where
  request_failed rpc_error bad_json bad_hex bad_number wrong_length prover_failed : Failure
  panicked : Failure

-- `context(..)?` on an option.
abbrev pub or_fail {ℓ} : {A : Type ℓ} → Option A → Failure → Result Failure A
or_fail none e = err e
or_fail (some a) e = ok a
