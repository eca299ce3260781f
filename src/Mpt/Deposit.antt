-- ===== src/Mpt/Deposit.antt =====
-- bin/eth_deposit.rs and types.rs: a failed assertion ends the run in an error.
use obscura_network.Prelude.{
  ℕ, Bool, true, false, not, List, [], ◌∷◌, ◌++◌, Bytes, ◌==◌, Bytes_Eq, nat_eq, ltb, replicate,
  Result, ok, err, ◌>>◌, guard,
}
use obscura_network.Merkle.{zero_bytes}
use obscura_network.Mpt.Rlp.{RlpError}
use obscura_network.Mpt.Encode.{to_be_bytes, rlp_encode_bytes, rlp_encode_uint, rlp_encode_list}
use obscura_network.Mpt.Trie.{verify_mpt_proof}

pub record EthBlockHeader : Type 0 where
  pub parent_hash : Bytes
  pub state_root : Bytes
  pub number : ℕ
  pub timestamp : ℕ
  pub rlp_encoded : Bytes

pub record DepositData : Type 0 where
  pub sender : Bytes
  pub obscura_recipient : Bytes
  pub amount : ℕ
  pub timestamp : ℕ
  pub status : ℕ

pub record BridgeDepositWitness : Type 0 where
  pub eth_block : EthBlockHeader
  pub beacon_block_root : Bytes
  pub bridge_contract : Bytes
  pub account_proof : List Bytes
  pub storage_root : Bytes
  pub deposit_id : ℕ
  pub storage_proof : List Bytes
  pub deposit_data : DepositData

pub record BridgePublicOutputs : Type 0 where
  pub eth_block_hash : Bytes
  pub beacon_block_root : Bytes
  pub deposit_id : ℕ
  pub obscura_recipient : Bytes
  pub amount : ℕ
  pub bridge_contract : Bytes

-- The assertions, in the order of the source, and what ends a proof check with no verdict.
pub data DepositPanic : Type 0 where
  invalid_account invalid_storage not_locked zero_amount zero_recipient : DepositPanic
  decoder : RlpError → DepositPanic

module _ (keccak256 : Bytes → Bytes) where
  unfoldable pub deposit_storage_slot : ℕ → Bytes
  deposit_storage_slot deposit_id =
      keccak256 (replicate 24 0 ++ (to_be_bytes 8 deposit_id ++ (replicate 31 0 ++ 3 ∷ [])))

  abbrev pub account_trie_key : Bytes → Bytes
  account_trie_key address = keccak256 address

  abbrev pub storage_trie_key : Bytes → Bytes
  storage_trie_key slot = keccak256 slot

unfoldable pub encode_account_rlp : ℕ → ℕ → Bytes → Bytes → Bytes
encode_account_rlp nonce balance storage_root code_hash = rlp_encode_list (
    rlp_encode_uint nonce
    ∷ (rlp_encode_uint balance
        ∷ (rlp_encode_bytes storage_root ∷ (rlp_encode_bytes code_hash ∷ []))))

unfoldable pub encode_deposit_storage_value : DepositData → Bytes
encode_deposit_storage_value bytes = rlp_encode_bytes (replicate 24 0 ++ to_be_bytes 8 bytes.amount)

-- `assert!(verify_mpt_proof(..))`
unfoldable pub assert_proof : DepositPanic → Result RlpError Bool → Result DepositPanic (Unit {0})
assert_proof e (ok true) = ok tt
assert_proof e (ok false) = err e
assert_proof e (err x) = err (decoder x)

unfoldable pub eth_deposit :
    (Bytes → Bytes) → BridgeDepositWitness → Result DepositPanic BridgePublicOutputs
eth_deposit keccak256 witness = do
  let eth_block_hash = keccak256 witness.eth_block.rlp_encoded
  let account_key = account_trie_key keccak256 witness.bridge_contract
  let expected_account_rlp = encode_account_rlp 0 0 witness.storage_root (replicate 32 0)
  assert_proof invalid_account (
      verify_mpt_proof keccak256 witness.eth_block.state_root account_key witness.account_proof
        expected_account_rlp)
  let storage_key = storage_trie_key keccak256 (deposit_storage_slot keccak256 witness.deposit_id)
  let expected_storage_value = encode_deposit_storage_value witness.deposit_data
  assert_proof invalid_storage (
      verify_mpt_proof keccak256 witness.storage_root storage_key witness.storage_proof
        expected_storage_value)
  guard (nat_eq witness.deposit_data.status 1) not_locked
  guard (ltb 0 witness.deposit_data.amount) zero_amount
  guard (not (witness.deposit_data.obscura_recipient == zero_bytes)) zero_recipient
  ok (record {
    eth_block_hash = eth_block_hash;
    beacon_block_root = witness.beacon_block_root;
    deposit_id = witness.deposit_id;
    obscura_recipient = witness.deposit_data.obscura_recipient;
    amount = witness.deposit_data.amount;
    bridge_contract = witness.bridge_contract;
  })
