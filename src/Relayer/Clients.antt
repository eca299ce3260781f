-- ===== src/Relayer/Clients.antt =====
-- The methods of `EthClient` and `ObscuraClient` of relayer.rs, and of `BeaconApiClient` of
-- beacon_api.rs, as computations over the requests that they send.
use Prim.Native.String.{String}
use obscura_network.Prelude.{ℕ, List, [], ◌∷◌, Bytes, length, nat_eq, unwrap_or, guard, Result}
use obscura_network.Prelude.Exec.{◌>>=◌, ◌>>◌, lift, pure}
use obscura_network.Bridge.Types.{ClaimDeposit, UpdateHeliosHead}
use obscura_network.Beacon.Types.{
  Failure, bad_json, wrong_length, or_fail, LightClientFinalityUpdateJson, GenesisConfigJson,
}
use obscura_network.Beacon.Parse as Parse
use obscura_network.Relayer.Types.{
  RelayerConfig, EthLog, StorageProofResult, Params, no_params, logs_filter, proof_at, block_at,
  helios_update, bridge_claim, post, fetch, Endpoint, finality_update, genesis, bootstrap, Outside,
  Online, request,
}
use obscura_network.Relayer.Decode.{
  compute_deposit_slot, result_of, read_block_number, parse_logs, read_proof,
  encode_block_header_rlp, read_beacon_root, read_helios_state,
}

abbrev pub deposit_locked_topic : String
deposit_locked_topic = "0x8a22e8ed8ee68e22fc67c94e4a26893b6d88ef0ee84bee8ca22a5b0a4d8a0a87"

module _ (o : Outside) where
  -- `eth_call`, and the body that the methods of `ObscuraClient` share.
  unfoldable pub call_rpc : Bytes → String → Params → Online o o.Value
  call_rpc url method params = do resp ← request o (post url method params); lift (result_of o resp)

  -- `body["data"]` of a GET.
  unfoldable pub fetch_data : Bytes → Endpoint → Online o o.Value
  fetch_data url endpoint = do body ← request o (fetch url endpoint); pure (o.field body "data")

  unfoldable pub read_pubkey : o.Value → Result Failure Bytes
  read_pubkey answer =
      let committee = o.field answer "current_sync_committee" in
      Parse.hex_decode o.hex
        (unwrap_or (o.as_str (o.field committee "aggregate_pubkey")) (b'0' ∷ b'x' ∷ []))

  module _ (config : RelayerConfig) where
    unfoldable pub get_latest_block : Online o ℕ
    get_latest_block = do
      response ← call_rpc config.eth_rpc "eth_blockNumber" no_params
      lift (read_block_number o response)

    unfoldable pub get_deposit_events : ℕ → ℕ → Online o (List EthLog)
    get_deposit_events from_block to_block = do
      logs_raw ←
          call_rpc config.eth_rpc "eth_getLogs"
            (logs_filter from_block to_block config.bridge_contract deposit_locked_topic)
      logs_arr ← lift (or_fail (o.as_array logs_raw) bad_json)
      lift (parse_logs o logs_arr)

    unfoldable pub get_block : ℕ → Online o o.Value
    get_block block_number = call_rpc config.eth_rpc "eth_getBlockByNumber" (block_at block_number)

    unfoldable pub get_storage_proof : ℕ → ℕ → Online o StorageProofResult
    get_storage_proof block_number deposit_id = do
      let slot = compute_deposit_slot o.keccak256 deposit_id
      proof ←
          call_rpc config.eth_rpc "eth_getProof"
            (proof_at config.bridge_contract (b'0' ∷ b'x' ∷ o.hex_encode slot) block_number)
      decoded ← lift (read_proof o proof)
      block ← get_block block_number
      block_header_rlp ← lift (encode_block_header_rlp o block)
      pure (record decoded { block_header_rlp = block_header_rlp })

    unfoldable pub get_beacon_root : ℕ → Online o Bytes
    get_beacon_root block_number = do
      block ← get_block block_number
      lift (read_beacon_root o block)

    unfoldable pub get_finality_update : Online o LightClientFinalityUpdateJson
    get_finality_update = do
      answer ← fetch_data config.beacon_url finality_update
      lift (or_fail (o.to_update answer) bad_json)

    unfoldable pub get_genesis : Online o GenesisConfigJson
    get_genesis = do
      answer ← fetch_data config.beacon_url genesis
      lift (or_fail (o.to_genesis answer) bad_json)

    unfoldable pub get_sync_committee_aggregate_pubkey : Bytes → Online o Bytes
    get_sync_committee_aggregate_pubkey block_root = do
      answer ← fetch_data config.beacon_url (bootstrap block_root)
      bytes ← lift (read_pubkey answer)
      lift (guard (nat_eq (length bytes) 48) wrong_length)
      pure bytes

    unfoldable pub get_helios_state : Online o (Bytes × ℕ)
    get_helios_state = do
      result ← call_rpc config.obscura_rpc "obscura_getHeliosState" no_params
      pure (read_helios_state o result)

    unfoldable pub submit_helios_update : UpdateHeliosHead → Online o (Unit {0})
    submit_helios_update update = do
      result ← call_rpc config.obscura_rpc "obscura_submitHeliosUpdate" (helios_update update)
      pure tt

    unfoldable pub submit_claim : ClaimDeposit → Online o (Unit {0})
    submit_claim claim = do
      result ← call_rpc config.obscura_rpc "obscura_submitBridgeClaim" (bridge_claim claim)
      pure tt
