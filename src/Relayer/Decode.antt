-- ===== src/Relayer/Decode.antt =====
-- The helpers of relayer.rs, and what its clients read from an answer. An index or a slice out of
-- bounds is a panic.
use obscura_network.Prelude.{
  ℕ, ◌+◌, ◌-◌, ◌*◌, ◌^◌, Bool, true, false, none, some, List, [], ◌∷◌, ◌++◌, Bytes, length,
  get_elem?, take, drop, replicate, unwrap_or, nat_eq, leb, ltb, if◌then◌else◌, Result, ok, err,
  guard, ◌>>=◌, ◌>>◌,
}
use obscura_network.Merkle.{zero_bytes}
use obscura_network.Mpt.Encode.{to_be_bytes}
use obscura_network.Bridge.Keys.{trim}
use obscura_network.Text.{trim_start_matches, from_str_radix}
use obscura_network.Beacon.Types.{
  Failure, rpc_error, bad_json, bad_hex, bad_number, wrong_length, panicked, or_fail,
}
use obscura_network.Beacon.Parse.{is_empty_text}
use obscura_network.Relayer.Types.{EthLog, StorageProofResult, Outside}

abbrev pub strip_0x : Bytes → Bytes
strip_0x s = trim_start_matches b'0' b'x' s

-- `bytes[offset..offset + n].copy_from_slice(source)`, where it fits.
unfoldable pub write_at : ℕ → Bytes → Bytes → Bytes
write_at offset source bytes = take offset bytes ++ (source ++ drop (offset + length source) bytes)

unfoldable pub compute_deposit_slot : (Bytes → Bytes) → ℕ → Bytes
unfolding write_at
compute_deposit_slot keccak256 deposit_id =
    keccak256 (write_at 63 (3 ∷ []) (write_at 24 (to_be_bytes 8 deposit_id) (replicate 64 0)))

unfoldable pub hex_to_u64 : Bytes → Result Failure ℕ
hex_to_u64 s =
    if is_empty_text (strip_0x s)
    then ok 0
    else or_fail (from_str_radix 16 (2 ^ 64) (strip_0x s)) bad_number

-- `u64::from_be_bytes`
unfoldable pub from_be_bytes : ℕ → Bytes → ℕ
from_be_bytes n [] = n
from_be_bytes n (b ∷ bytes) = from_be_bytes (n * 256 + b) bytes

-- The errors of `?`, which a loop may pass over, and not a panic.
unfoldable pub passes : Failure → Bool
passes panicked = false
passes _ = true

module _ (o : Outside) where
  unfoldable pub hex_decode : Bytes → Result Failure Bytes
  hex_decode s = if is_empty_text (strip_0x s) then ok [] else or_fail (o.hex (strip_0x s)) bad_hex

  unfoldable pub hex_to_bytes32 : Bytes → Result Failure Bytes
  hex_to_bytes32 s = do
    bytes ← hex_decode s
    guard (nat_eq (length bytes) 32) wrong_length
    ok bytes

  -- The last 20 bytes.
  unfoldable pub hex_to_address : Bytes → Result Failure Bytes
  hex_to_address s = do
    bytes ← hex_decode s
    guard (leb 20 (length bytes)) wrong_length
    ok (drop (length bytes - 20) bytes)

  -- 40 digits, which `hex` decodes to 20 bytes.
  unfoldable pub parse_address_str : Bytes → Result Failure Bytes
  unfolding trim
  parse_address_str s = do
    guard (nat_eq (length (strip_0x (trim s))) 40) wrong_length
    or_fail (o.hex (strip_0x (trim s))) bad_hex

  abbrev pub str_or : o.Value → Bytes → Bytes
  str_or v d = unwrap_or (o.as_str v) d

  -- The outcome of a JSON-RPC call.
  unfoldable pub result_of : o.Value → Result Failure o.Value
  result_of resp = elim (o.get resp "error") [
    | none ↦ ok (o.field resp "result")
    | some _ ↦ err rpc_error
  ]

  unfoldable pub read_block_number : o.Value → Result Failure ℕ
  read_block_number response = do
    text ← or_fail (o.as_str response) bad_json
    or_fail (from_str_radix 16 (2 ^ 64) (strip_0x text)) bad_number

  unfoldable pub parse_deposit_log : o.Value → Result Failure EthLog
  parse_deposit_log log = do
    topics ← or_fail (o.as_array (o.field log "topics")) bad_json
    topic_1 ← or_fail (get_elem? topics 1) panicked
    deposit_id ← hex_to_u64 (str_or topic_1 [])
    topic_2 ← or_fail (get_elem? topics 2) panicked
    sender ← hex_to_address (str_or topic_2 [])
    topic_3 ← or_fail (get_elem? topics 3) panicked
    obscura_recipient ← hex_to_bytes32 (str_or topic_3 [])
    bytes ← hex_decode (str_or (o.field log "data") (b'0' ∷ b'x' ∷ []))
    guard (leb 32 (length bytes)) panicked
    let amount = from_be_bytes 0 (take 8 (drop 24 bytes))
    block_number ← hex_to_u64 (str_or (o.field log "blockNumber") (b'0' ∷ b'x' ∷ b'0' ∷ []))
    block_hash ← hex_to_bytes32 (str_or (o.field log "blockHash") [])
    tx_hash ← hex_to_bytes32 (str_or (o.field log "transactionHash") [])
    log_index ← hex_to_u64 (str_or (o.field log "logIndex") (b'0' ∷ b'x' ∷ b'0' ∷ []))
    ok (record {
      block_number = block_number;
      block_hash = block_hash;
      tx_hash = tx_hash;
      log_index = log_index;
      deposit_id = deposit_id;
      sender = sender;
      obscura_recipient = obscura_recipient;
      amount = amount;
    })

  -- A log that is parsed goes before the others, one that is not is left out.
  unfoldable pub keep_log :
      Result Failure EthLog → Result Failure (List EthLog) → Result Failure (List EthLog)
  unfolding passes
  keep_log (ok log) rest = rest >>= λ logs. ok (log ∷ logs)
  keep_log (err e) rest = if passes e then rest else err e

  unfoldable pub parse_logs : List o.Value → Result Failure (List EthLog)
  unfolding keep_log
  parse_logs [] = ok []
  parse_logs (log ∷ logs_arr) = keep_log (parse_deposit_log log) (parse_logs logs_arr)

  unfoldable pub decode_nodes : List o.Value → Result Failure (List Bytes)
  decode_nodes [] = ok []
  decode_nodes (v ∷ nodes) = hex_decode (str_or v (b'0' ∷ b'x' ∷ [])) >>= λ node.
      decode_nodes nodes >>= λ rest. ok (node ∷ rest)

  -- The first of the storage proofs, as there is one slot that is asked for.
  abbrev pub first_proof : o.Value → o.Value
  first_proof proof = o.item (o.field proof "storageProof") 0

  -- All but the header of the block.
  unfoldable pub read_proof : o.Value → Result Failure StorageProofResult
  read_proof proof = do
    state_root ← hex_to_bytes32 (str_or (o.field proof "stateRoot") [])
    storage_root ← hex_to_bytes32 (str_or (o.field proof "storageHash") [])
    account_nodes ← or_fail (o.as_array (o.field proof "accountProof")) bad_json
    account_proof ← decode_nodes account_nodes
    storage_nodes ← or_fail (o.as_array (o.field (first_proof proof) "proof")) bad_json
    storage_proof ← decode_nodes storage_nodes
    slot_value ← hex_to_u64 (str_or (o.field (first_proof proof) "value") (b'0' ∷ b'x' ∷ b'0' ∷ []))
    ok (record {
      block_header_rlp = [];
      state_root = state_root;
      storage_root = storage_root;
      account_proof = account_proof;
      storage_proof = storage_proof;
      slot_value = slot_value;
    })

  -- The hash of the block, in place of its header.
  unfoldable pub encode_block_header_rlp : o.Value → Result Failure Bytes
  encode_block_header_rlp block =
      hex_decode (str_or (o.field block "hash") (b'0' ∷ b'x' ∷ b'0' ∷ b'0' ∷ []))

  unfoldable pub read_beacon_root : o.Value → Result Failure Bytes
  read_beacon_root block =
      let root_hex = str_or (o.field block "parentBeaconBlockRoot") [] in
      if ltb (length root_hex) 3
      then hex_to_bytes32 (str_or (o.field block "hash") (b'0' ∷ b'x' ∷ b'0' ∷ b'0' ∷ []))
      else hex_to_bytes32 root_hex

  -- What cannot be read is a root of zeros, and slot 0.
  unfoldable pub read_helios_state : o.Value → Bytes × ℕ
  read_helios_state result =
      let text = str_or (o.field result "trusted_beacon_root") (b'0' ∷ b'x' ∷ []) in
      let slot = unwrap_or (o.as_u64 (o.field result "trusted_slot")) 0 in
      elim (hex_decode text) [
        | ok bytes ↦ if nat_eq (length bytes) 32 then (bytes, slot) else (zero_bytes, slot)
        | err _ ↦ (zero_bytes, slot)
      ]
