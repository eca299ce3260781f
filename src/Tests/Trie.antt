-- ===== src/Tests/Trie.antt =====
-- Runs of the decoder of RLP, of the check of a trie's proofs and of the program for deposits.
use obscura_network.Prelude.{
  ◌<◌, ◌≡◌, ◌≢◌, ◌⊎◌, refl, List, [], ◌∷◌, ◌++◌, Bytes, map, replicate, arith, ok, err, true,
  bytes_eq, Bytes_Eq,
}
use obscura_network.Merkle.{zero_bytes}
use obscura_network.Merkle.Inclusion.{Collision}
use obscura_network.Mpt.Rlp.{
  out_of_fuel, be_loop, long_end, short_string, long_string, rlp_decode_item, items_loop,
  list_payload, rlp_decode_list,
}
use obscura_network.Mpt.Encode.{
  be_bytes, to_be_bytes, skip_zeros, rlp_header, rlp_encode_bytes, rlp_encode_uint, concat,
  rlp_encode_list,
}
use obscura_network.Mpt.Trie.{
  bytes_to_nibbles, decode_hp, pair_step, node_step, decoded_step, read_node, mpt_loop,
  verify_mpt_proof,
}
use obscura_network.Mpt.Lists.{rlp_decode_list-encode}
use obscura_network.Mpt.Ends.{NeverEnds, rlp_rounds_enough, stuck_item}
use obscura_network.Mpt.Items.{rlp_decode_list-bound}
use obscura_network.Mpt.Binding.{verify_mpt_proof_binding}
use obscura_network.Mpt.Deposit.{
  BridgeDepositWitness, BridgePublicOutputs, deposit_storage_slot, encode_account_rlp,
  encode_deposit_storage_value, assert_proof, eth_deposit,
}
use obscura_network.Mpt.Payouts.{eth_deposit_binding, eth_deposit_any_recipient}
use obscura_network.Tests.Data.{toy_hash}

abbrev strings : List Bytes
strings = (5 ∷ []) ∷ replicate 60 7 ∷ [] ∷ []

rlp_decode_list-encode_example :
    rlp_decode_list (rlp_encode_list (map rlp_encode_bytes strings)) ≡ ok strings
unfolding rlp_encode_bytes concat rlp_header skip_zeros to_be_bytes be_bytes
rlp_decode_list-encode_example = rlp_decode_list-encode strings (omega arith)

rlp_rounds_enough_example :
    (items_loop 10 (0 ∷ stuck_item) ≢ err out_of_fuel) ⊎ NeverEnds (0 ∷ stuck_item)
rlp_rounds_enough_example = rlp_rounds_enough (0 ∷ stuck_item)

pair_lem : rlp_decode_list (0xc2 ∷ 5 ∷ 6 ∷ []) ≡ ok ((5 ∷ []) ∷ (6 ∷ []) ∷ [])
unfolding rlp_decode_list list_payload short_string items_loop rlp_decode_item
pair_lem = refl

rlp_decode_list-bound_example : 1 < 3
rlp_decode_list-bound_example =
    rlp_decode_list-bound (0xc2 ∷ 5 ∷ 6 ∷ []) ((5 ∷ []) ∷ (6 ∷ []) ∷ []) 1 pair_lem

-- A trie of one leaf: its encoding, for a key and a value of 33 bytes.
abbrev leaf_of : Bytes → Bytes → Bytes
leaf_of key value = 0xf8 ∷ (68 ∷ (0xa1 ∷ (0x20 ∷ key) ++ (0xa1 ∷ value)))

abbrev slot_value : Bytes
slot_value = 0xa0 ∷ (replicate 31 0 ++ (50 ∷ []))

abbrev key : Bytes
key = replicate 32 7

leaf_lem :
    verify_mpt_proof toy_hash
      (toy_hash (leaf_of key slot_value))
      key
      (leaf_of key slot_value ∷ [])
      slot_value
    ≡ ok true
unfolding verify_mpt_proof mpt_loop read_node decoded_step node_step pair_step decode_hp
    bytes_to_nibbles rlp_decode_list list_payload long_string long_end be_loop short_string
    items_loop rlp_decode_item bytes_eq
leaf_lem = refl

verify_mpt_proof_binding_example : (slot_value ≡ slot_value) ⊎ Collision toy_hash
verify_mpt_proof_binding_example =
    verify_mpt_proof_binding toy_hash (toy_hash (leaf_of key slot_value)) key
      (leaf_of key slot_value ∷ []) (leaf_of key slot_value ∷ []) slot_value slot_value
      (omega arith) (omega arith) leaf_lem leaf_lem

abbrev contract : Bytes
contract = replicate 20 1

abbrev storage_leaf : Bytes
storage_leaf = leaf_of (replicate 31 0 ++ (6 ∷ [])) slot_value

abbrev account_leaf : Bytes
account_leaf =
    0xf8
    ∷ (106
        ∷ (0xa1 ∷ (0x20 ∷ toy_hash contract)
            ++ (0xb8
                ∷ (70 ∷ (0xf8 ∷ (68 ∷ (0x80 ∷ (0x80 ∷ (0xa0 ∷ toy_hash storage_leaf)))))
                    ++ (0xa0 ∷ zero_bytes)))))

abbrev deposit : BridgeDepositWitness
deposit = record {
  eth_block = record {
    parent_hash = zero_bytes;
    state_root = toy_hash account_leaf;
    number = 1;
    timestamp = 2;
    rlp_encoded = 1 ∷ [];
  };
  beacon_block_root = zero_bytes;
  bridge_contract = contract;
  account_proof = account_leaf ∷ [];
  storage_root = toy_hash storage_leaf;
  deposit_id = 6;
  storage_proof = storage_leaf ∷ [];
  deposit_data = record {
    sender = contract;
    obscura_recipient = replicate 32 4;
    amount = 50;
    timestamp = 2;
    status = 1;
  };
}

abbrev paid : BridgePublicOutputs
paid = record {
  eth_block_hash = toy_hash (1 ∷ []);
  beacon_block_root = zero_bytes;
  deposit_id = 6;
  obscura_recipient = replicate 32 4;
  amount = 50;
  bridge_contract = contract;
}

deposit_lem : eth_deposit toy_hash deposit ≡ ok paid
unfolding eth_deposit assert_proof deposit_storage_slot encode_account_rlp
    encode_deposit_storage_value rlp_encode_list rlp_encode_uint rlp_encode_bytes rlp_header concat
    skip_zeros to_be_bytes be_bytes verify_mpt_proof mpt_loop read_node decoded_step node_step
    pair_step decode_hp bytes_to_nibbles rlp_decode_list list_payload long_string long_end be_loop
    short_string items_loop rlp_decode_item bytes_eq
deposit_lem = refl

eth_deposit_any_recipient_example :
    eth_deposit toy_hash (record deposit {
      eth_block = record (deposit.eth_block) { rlp_encoded = 2 ∷ [] };
      beacon_block_root = replicate 32 8;
      deposit_data = record (deposit.deposit_data) {
        obscura_recipient = replicate 32 5;
        sender = [];
        timestamp = 3;
      };
    })
    ≡ ok (record paid {
      eth_block_hash = toy_hash (2 ∷ []);
      beacon_block_root = replicate 32 8;
      obscura_recipient = replicate 32 5;
    })
unfolding bytes_eq
eth_deposit_any_recipient_example =
    eth_deposit_any_recipient toy_hash deposit paid (replicate 32 5) (2 ∷ []) (replicate 32 8) [] 3
      refl deposit_lem

eth_deposit_binding_example :
    ((toy_hash storage_leaf ≡ toy_hash storage_leaf) × (paid.amount ≡ paid.amount))
    ⊎ Collision toy_hash
eth_deposit_binding_example =
    eth_deposit_binding toy_hash deposit deposit paid paid (refl, refl) (omega arith, omega arith)
      refl refl refl deposit_lem deposit_lem
