-- ===== src/Relayer/Types.antt =====
-- The relayer's data, the requests that it sends, and what it takes from elsewhere.
use Prim.Native.String.{String}
use obscura_network.Prelude.{ℕ, Bool, Option, List, ◌∷◌, Bytes, Result}
use obscura_network.Prelude.Exec.{Exec}
use obscura_network.Helios.Step.{HeliosWitness}
use obscura_network.Bridge.Types.{ClaimDeposit, UpdateHeliosHead}
use obscura_network.Beacon.Types.{
  Failure, request_failed, or_fail, LightClientFinalityUpdateJson, GenesisConfigJson,
}

-- Without the poll interval.
pub record RelayerConfig : Type 0 where
  pub eth_rpc : Bytes
  pub beacon_url : Bytes
  pub bridge_contract : Bytes
  pub obscura_rpc : Bytes
  pub mock_proofs : Bool
  pub start_block : ℕ

pub record EthLog : Type 0 where
  pub block_number : ℕ
  pub block_hash : Bytes
  pub tx_hash : Bytes
  pub log_index : ℕ
  pub deposit_id : ℕ
  pub sender : Bytes
  pub obscura_recipient : Bytes
  pub amount : ℕ

pub record StorageProofResult : Type 0 where
  pub block_header_rlp : Bytes
  pub state_root : Bytes
  pub storage_root : Bytes
  pub account_proof : List Bytes
  pub storage_proof : List Bytes
  pub slot_value : ℕ

-- The parameters of a call; the JSON text writes the numbers in hexadecimal.
pub data Params : Type 0 where
  no_params : Params
  logs_filter : (from_block to_block : ℕ) (address : Bytes) (topic : String) → Params
  proof_at : (address slot : Bytes) (block : ℕ) → Params
  block_at : (block : ℕ) → Params
  helios_update : UpdateHeliosHead → Params
  bridge_claim : ClaimDeposit → Params

pub data Endpoint : Type 0 where
  finality_update genesis : Endpoint
  bootstrap : (block_root : Bytes) → Endpoint

-- A JSON-RPC call, and a GET of the beacon API.
pub data Request : Type 0 where
  post : (url : Bytes) (method : String) (params : Params) → Request
  fetch : (url : Bytes) (endpoint : Endpoint) → Request

-- Other crates and the servers. `http` sends a request and decodes the answer, of which it has none
-- if either fails; the servers' state may change with each. `field`, `item`, `get` and the three
-- below are the accessors of `serde_json::Value`, `to_update` and `to_genesis` its `from_value`.
-- `prover` is there with the feature `native`.
pub record Outside : Type 1 where
  pub World : Type 0
  pub Value : Type 0
  pub http : Request → World → Option Value × World
  pub field : Value → String → Value
  pub item : Value → ℕ → Value
  pub get : Value → String → Option Value
  pub as_str : Value → Option Bytes
  pub as_u64 : Value → Option ℕ
  pub as_array : Value → Option (List Value)
  pub to_update : Value → Option LightClientFinalityUpdateJson
  pub to_genesis : Value → Option GenesisConfigJson
  pub hex : Bytes → Option Bytes
  pub hex_encode : Bytes → Bytes
  pub sha256 : Bytes → Bytes
  pub keccak256 : Bytes → Bytes
  pub prover : Option (HeliosWitness → World → Option Bytes × World)

-- The servers, and the requests so far with their answers, the last one first.
pub record Net (o : Outside) : Type 0 where
  pub world : o.World
  pub sent : List (Request × Option o.Value)

module _ (o : Outside) where
  abbrev pub Online : Type 0 → Type 0
  Online A = Exec Failure (Net o) A

  -- The answer comes with the world after it.
  abbrev pub answered : Request → Net o → Option o.Value × o.World → Result Failure o.Value × Net o
  answered r s (answer, world) =
      (or_fail answer request_failed, record { world = world; sent = (r, answer) ∷ s.sent })

  unfoldable pub request : Request → Online o.Value
  request r s = answered r s (o.http r s.world)
