-- ===== src/Bridge/Types.antt =====
-- crates/zk-bridge/src/types.rs and helios_types.rs, and the state, messages and events of
-- crates/zk-bridge/src/module.rs.
use obscura_network.Prelude.{ℕ, Bool, Option, Bytes, StateMap, [], ◌∷◌, replicate}
use obscura_network.Merkle.{zero_bytes}
use obscura_network.Privacy.Types as PrivacyTypes
use obscura_network.Privacy.State as PrivacyState

-- What a Helios proof commits to, in the order in which the values are read from it.
pub record Committed : Type 0 where
  pub prev_root : Bytes
  pub new_root : Bytes
  pub slot : ℕ
  pub block_hash : Bytes

-- What the module takes from elsewhere. `hex_decode` is `hex::decode_to_slice` into 20 bytes.
-- With the `native` feature, `native` is the SP1 verifier: it gives the values that a proof commits
-- to, or `none` if the circuit, the proof's encoding or the proof is not good.
pub record Env : Type 0 where
  pub privacy : PrivacyTypes.Env
  pub open privacy use *
  pub hex_decode : Bytes → Option Bytes
  pub native : Option (Bytes → Option Committed)

pub data Error : Type 0 where
  zero_amount zero_recipient invalid_address_length invalid_address_hex wrong_contract : Error
  already_claimed block_not_proven : Error
  sp1_not_implemented sp1_not_compiled : Error
  pool_error : PrivacyTypes.Error → Error
  not_claimed already_withdrawn no_claimed_amount : Error
  prev_root_mismatch slot_not_advancing slot_gap_too_large : Error
  helios_proof_rejected committed_mismatch : Error
  not_admin : Error

pub record BridgePublicInputs : Type 0 where
  pub eth_block_hash : Bytes
  pub beacon_block_root : Bytes
  pub deposit_id : ℕ
  pub obscura_recipient : Bytes
  pub amount : ℕ
  pub bridge_contract : Bytes

pub record ClaimDeposit : Type 0 where
  pub proof : Bytes
  pub public_inputs : BridgePublicInputs

pub record WithdrawBridge : Type 0 where
  pub deposit_id : ℕ
  pub eth_recipient : Bytes

pub record WithdrawalRecord : Type 0 where
  pub withdrawal_id : ℕ
  pub deposit_id : ℕ
  pub eth_recipient : Bytes
  pub amount : ℕ
  pub relayed : Bool

pub record HeliosPublicInputs : Type 0 where
  pub prev_trusted_root : Bytes
  pub new_beacon_root : Bytes
  pub new_slot : ℕ
  pub execution_block_hash : Bytes

pub record UpdateHeliosHead : Type 0 where
  pub proof : Bytes
  pub public_inputs : HeliosPublicInputs

pub record HeliosConfig : Type 0 where
  pub initial_trusted_beacon_root : Bytes
  pub initial_trusted_slot : ℕ
  pub max_slot_gap : ℕ

abbrev pub default_helios : HeliosConfig
default_helios = record {
  initial_trusted_beacon_root = zero_bytes;
  initial_trusted_slot = 0;
  max_slot_gap = 8192;
}

pub record BridgeConfig : Type 0 where
  pub bridge_contract_address : Bytes
  pub vk_hash : Bytes
  pub max_proof_age_secs : ℕ
  pub admin : Bytes
  pub helios : HeliosConfig

abbrev pub default_config : BridgeConfig
default_config = record {
  bridge_contract_address = b'0' ∷ b'x' ∷ replicate 40 b'0';
  vk_hash = zero_bytes;
  max_proof_age_secs = 604800;
  admin = [];
  helios = default_helios;
}

pub record State : Type 0 where
  pub config : Option BridgeConfig
  pub processed_deposits : StateMap Bytes Bool
  pub total_bridged_usdc : Option ℕ
  pub total_claims : Option ℕ
  pub claimed_amounts : StateMap ℕ ℕ
  pub withdrawals : StateMap ℕ WithdrawalRecord
  pub next_withdrawal_id : Option ℕ
  pub total_withdrawn_usdc : Option ℕ
  pub helios_config : Option HeliosConfig
  pub trusted_beacon_root : Option Bytes
  pub trusted_slot : Option ℕ
  pub finalized_eth_blocks : StateMap Bytes ℕ
  pub helios_update_count : Option ℕ
  pub obscura_privacy : PrivacyState.State

pub data BridgeCallMessage : Type 0 where
  claim_deposit : ClaimDeposit → BridgeCallMessage
  withdraw_bridge : WithdrawBridge → BridgeCallMessage
  update_helios_head : UpdateHeliosHead → BridgeCallMessage

pub data BridgeEvent : Type 0 where
  deposit_claimed :
      (deposit_id : ℕ) (obscura_recipient : Bytes) (amount : ℕ) (eth_block_hash : Bytes)
      → BridgeEvent
  withdrawal_initiated :
      (withdrawal_id deposit_id : ℕ) (eth_recipient : Bytes) (amount : ℕ) → BridgeEvent
  config_updated : BridgeEvent
  helios_head_updated :
      (prev_beacon_root new_beacon_root : Bytes) (new_slot : ℕ) (execution_block_hash : Bytes)
      → BridgeEvent
