-- ===== src/Tests/Relayer.antt =====
-- The relayer with servers that answer each request in one way: one deposit, in block 1.
use obscura_network.Prelude.{
  ℕ, ◌≡◌, ◌⊎◌, refl, true, false, none, some, [], ◌∷◌, Bytes, replicate, ok, arith, Bytes_Eq,
}
use obscura_network.Text.{trim_start_matches, read_radix, to_digit, from_str_radix}
use obscura_network.Relayer.Types.{
  RelayerConfig, EthLog, no_params, logs_filter, Request, post, fetch, Outside, Net, request,
}
use obscura_network.Relayer.Decode.{
  hex_to_u64, from_be_bytes, hex_decode, hex_to_bytes32, hex_to_address, parse_address_str,
  result_of, read_block_number, parse_deposit_log, keep_log, parse_logs, decode_nodes, read_proof,
  encode_block_header_rlp, read_beacon_root,
}
use obscura_network.Relayer.Clients.{
  call_rpc, get_latest_block, get_deposit_events, get_block, get_storage_proof, get_beacon_root,
  submit_claim, deposit_locked_topic,
}
use obscura_network.Relayer.Loop.{
  has_id, attempt, mark_processed, relay_deposit, relay_log, relay_logs, update_head,
  scan_and_relay, round, start, rounds, next_block,
}
use obscura_network.Relayer.Once.{IsOnce, rounds-IsOnce}
use obscura_network.Relayer.Blocks.{was_scanned, blocks_scanned}
use obscura_network.Relayer.Failures.{failures_passed}
use obscura_network.Tests.Data.{fit, toy_hash}

-- A list of one log, and a value whose fields are all itself: 64 digits, or a list of four.
data Answer : Type 0 where
  logs word : Answer

abbrev respond : Request → Answer
respond (post url method (logs_filter f t a topic)) = logs
respond (post url method _) = word
respond (fetch url endpoint) = word

abbrev sixty_four : Bytes
sixty_four = b'1' ∷ []

abbrev servers : Outside
servers = record {
  World = ℕ;
  Value = Answer;
  http = λ r n. (some (respond r), n);
  field = λ v _. v;
  item = λ v _. v;
  get = λ _ _. none;
  as_str = λ _. some sixty_four;
  as_u64 = λ _. none;
  as_array = λ v. elim v [ logs ↦ some (word ∷ []) | word ↦ some (word ∷ word ∷ word ∷ word ∷ []) ];
  to_update = λ _. none;
  to_genesis = λ _. none;
  hex = λ b. some (fit 32 b);
  hex_encode = λ b. b;
  sha256 = toy_hash;
  keccak256 = toy_hash;
  prover = none;
}

abbrev relayer_config : RelayerConfig
relayer_config = record {
  eth_rpc = [];
  beacon_url = [];
  bridge_contract = replicate 40 b'a';
  obscura_rpc = [];
  mock_proofs = true;
  start_block = 1;
}

-- All that a round computes with.
computed : Unit {0}
unfolding rounds round scan_and_relay get_latest_block call_rpc request result_of read_block_number
    get_deposit_events parse_logs parse_deposit_log keep_log hex_to_u64 hex_to_address hex_decode
    hex_to_bytes32 update_head relay_logs relay_log attempt relay_deposit from_str_radix
    trim_start_matches read_radix to_digit has_id get_storage_proof read_proof decode_nodes
    get_block encode_block_header_rlp get_beacon_root read_beacon_root parse_address_str
    submit_claim
computed = tt

from_block_2 : (rounds servers relayer_config 1 0).from_block ≡ 2
unfolding computed
from_block_2 = refl

-- The deposit is processed in the first round and passed over in the second.
processed_1 : (rounds servers relayer_config 1 0).relayer.processed ≡ 1 ∷ []
unfolding computed mark_processed
processed_1 = refl

rounds-IsOnce_example : IsOnce servers (rounds servers relayer_config 2 0).relayer
rounds-IsOnce_example = rounds-IsOnce servers relayer_config 2 0

blocks_scanned_example :
    was_scanned servers 1 (rounds servers relayer_config 1 0).relayer.net.sent ≡ true
blocks_scanned_example =
    blocks_scanned servers relayer_config 1 0 1 (omega arith) (omega (arith, from_block_2))

-- The servers know block 1, and hand out the log of the deposit.
abbrev asked : Net servers
asked = record { world = 0; sent = (post [] "eth_blockNumber" no_params, some word) ∷ [] }

abbrev listed : Net servers
listed = record {
  world = 0;
  sent =
      (
        post [] "eth_getLogs" (logs_filter 1 1 relayer_config.bridge_contract deposit_locked_topic),
        some logs,
      )
      ∷ asked.sent;
}

abbrev deposit_1 : EthLog
deposit_1 = record {
  block_number = 1;
  block_hash = fit 32 sixty_four;
  tx_hash = fit 32 sixty_four;
  log_index = 1;
  deposit_id = 1;
  sender = replicate 20 0;
  obscura_recipient = fit 32 sixty_four;
  amount = 0;
}

latest_1 :
    get_latest_block servers relayer_config (start servers relayer_config 0).relayer.net
    ≡ (ok 1, asked)
unfolding computed
latest_1 = refl

events_1 : get_deposit_events servers relayer_config 1 1 asked ≡ (ok (deposit_1 ∷ []), listed)
unfolding computed from_be_bytes
events_1 = refl

failures_passed_example :
    ((round servers relayer_config (start servers relayer_config 0)).from_block ≡ next_block 1)
    ⊎ ((round servers relayer_config (start servers relayer_config 0)).running ≡ false)
failures_passed_example =
    failures_passed servers relayer_config (start servers relayer_config 0) 1 (deposit_1 ∷ []) asked
      listed refl latest_1 (omega arith) events_1
