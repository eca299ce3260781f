-- ===== src/Relayer/Loop.antt =====
-- `BridgeRelayer` of relayer.rs. An error of a step is caught where the source matches on it; a
-- panic ends the process.
use obscura_network.Prelude.{
  ℕ, zero, suc, ◌+◌, ◌-◌, ◌/◌, ◌^◌, Bool, true, false, not, ◌&&◌, ◌||◌, Option, none, some, List,
  [], ◌∷◌, ◌++◌, Bytes, length, replicate, nat_eq, leb, ltb, if◌then◌else◌, Result, ok, err,
}
use obscura_network.Prelude.Exec.{Exec, ◌>>=◌, ◌>>◌, lift, pure, modify}
use obscura_network.Merkle.{zero_bytes}
use obscura_network.Privacy.Types.{to_le_bytes}
use obscura_network.Helios.Step.{HeliosWitness}
use obscura_network.Bridge.Types.{ClaimDeposit, HeliosPublicInputs}
use obscura_network.Bridge.Verifier.{mock_proof_prefix, mock_helios_prefix}
use obscura_network.Beacon.Types.{Failure, prover_failed, or_fail, LightClientFinalityUpdateJson}
use obscura_network.Beacon.Parse.{parse_number}
use obscura_network.Beacon.Witness.{build_helios_witness}
use obscura_network.Relayer.Types.{RelayerConfig, EthLog, Outside, Net, Online}
use obscura_network.Relayer.Decode.{passes, parse_address_str}
use obscura_network.Relayer.Clients.{
  get_latest_block, get_deposit_events, get_storage_proof, get_beacon_root, get_finality_update,
  get_genesis, get_sync_committee_aggregate_pubkey, get_helios_state, submit_claim,
}
use obscura_network.Relayer.Clients as Clients

abbrev pub slots_per_epoch : ℕ
slots_per_epoch = 32

-- `self`, with the epoch that `run` hands to each scan.
pub record BridgeRelayer (o : Outside) : Type 0 where
  pub net : Net o
  pub processed : List ℕ
  pub last_helios_epoch : ℕ

-- `HashSet::contains`
unfoldable pub has_id : ℕ → List ℕ → Bool
has_id n [] = false
has_id n (m ∷ ids) = nat_eq n m || has_id n ids

module _ {S A : Type 0} where
  -- `unwrap_or(default)` of a step.
  abbrev pub recovered : A → Result Failure A × S → Result Failure A × S
  recovered d (ok a, s) = (ok a, s)
  recovered d (err e, s) = if passes e then (ok d, s) else (err e, s)

  -- `match step { Ok(_) => .., Err(e) => warn!(..) }`: whether the step succeeded.
  abbrev pub attempted : Result Failure A × S → Result Failure Bool × S
  attempted (ok a, s) = (ok true, s)
  attempted (err e, s) = if passes e then (ok false, s) else (err e, s)

  unfoldable pub recover : Exec Failure S A → A → Exec Failure S A
  unfolding passes
  recover m d s = recovered d (m s)

  unfoldable pub attempt : Exec Failure S A → Exec Failure S Bool
  unfolding passes
  attempt m s = attempted (m s)

-- The public inputs of a head: the payload's root stands where the root of the header belongs.
unfoldable pub helios_inputs : Bytes → ℕ → HeliosWitness → HeliosPublicInputs
helios_inputs current_trusted_root new_slot witness = record {
  prev_trusted_root = current_trusted_root;
  new_beacon_root = witness.execution_payload_root;
  new_slot = new_slot;
  execution_block_hash = witness.execution_block_hash;
}

unfoldable pub mock_helios_proof : ℕ → Bytes
mock_helios_proof new_slot = mock_helios_prefix ++ to_le_bytes 8 new_slot

unfoldable pub mock_bridge_proof : ℕ → Bytes
mock_bridge_proof deposit_id = mock_proof_prefix ++ to_le_bytes 8 deposit_id

module _ (o : Outside) where
  abbrev proved : Net o → Option Bytes × o.World → Result Failure Bytes × Net o
  proved s (proof, world) = (or_fail proof prover_failed, record s { world = world })

  unfoldable pub run_prover :
      Option (HeliosWitness → o.World → Option Bytes × o.World) → HeliosWitness → Online o Bytes
  run_prover none witness s = (err prover_failed, s)
  run_prover (some prove) witness s = proved s (prove witness s.world)

  -- The SP1 prover, which the build may lack.
  unfoldable pub generate_helios_sp1_proof : HeliosWitness → Online o Bytes
  generate_helios_sp1_proof witness = run_prover o.prover witness

  -- A call on the part of the state that the clients use.
  abbrev pub in_net : {A : Type 0} → Online o A → Exec Failure (BridgeRelayer o) A
  in_net m s = ((m s.net).0, record s { net = (m s.net).1 })

  -- What the loop writes down, if the step succeeded.
  unfoldable pub mark_processed : ℕ → Bool → BridgeRelayer o → BridgeRelayer o
  mark_processed deposit_id relayed s =
      if relayed then record s { processed = deposit_id ∷ s.processed } else s

  unfoldable pub mark_epoch : ℕ → Bool → BridgeRelayer o → BridgeRelayer o
  mark_epoch epoch updated s = if updated then record s { last_helios_epoch = epoch } else s

  module _ (config : RelayerConfig) where
    unfoldable pub helios_proof : ℕ → HeliosWitness → Online o Bytes
    helios_proof new_slot witness =
        if config.mock_proofs
        then pure (mock_helios_proof new_slot)
        else generate_helios_sp1_proof witness

    -- From the genesis on, once the update is known to be newer.
    unfoldable pub advance_head : LightClientFinalityUpdateJson → Bytes → ℕ → Online o (Unit {0})
    advance_head update current_trusted_root new_slot = do
      genesis ← get_genesis o config
      sync_committee_pubkey ←
          recover
            (get_sync_committee_aggregate_pubkey o config
              update.finalized_header.beacon.parent_root)
            (replicate 48 1)
      witness ← lift (
          build_helios_witness o.sha256 o.hex update genesis sync_committee_pubkey
            current_trusted_root)
      proof ← helios_proof new_slot witness
      Clients.submit_helios_update o config (record {
        proof = proof;
        public_inputs = helios_inputs current_trusted_root new_slot witness;
      })

    unfoldable pub submit_helios_update : Online o (Unit {0})
    submit_helios_update = do
      current ← recover (get_helios_state o config) (zero_bytes, 0)
      update ← get_finality_update o config
      new_slot ← lift (parse_number update.finalized_header.beacon.slot)
      if leb new_slot current.1 then pure tt else advance_head update current.0 new_slot

    abbrev pub claim_of : EthLog → Bytes → Bytes → ClaimDeposit
    claim_of log beacon_block_root bridge_contract = record {
      proof = mock_bridge_proof log.deposit_id;
      public_inputs = record {
        eth_block_hash = log.block_hash;
        beacon_block_root = beacon_block_root;
        deposit_id = log.deposit_id;
        obscura_recipient = log.obscura_recipient;
        amount = log.amount;
        bridge_contract = bridge_contract;
      };
    }

    -- There is no proof but the mock one.
    unfoldable pub relay_deposit : EthLog → Online o (Unit {0})
    relay_deposit log = do
      storage_proof ← get_storage_proof o config log.block_number log.deposit_id
      beacon_block_root ← get_beacon_root o config log.block_number
      bridge_contract ← lift (parse_address_str o config.bridge_contract)
      if config.mock_proofs
          then submit_claim o config (claim_of log beacon_block_root bridge_contract)
          else lift (err prover_failed)

    -- The body of `for log in logs`.
    unfoldable pub relay_log : EthLog → Exec Failure (BridgeRelayer o) (Unit {0})
    relay_log log s =
        if has_id log.deposit_id s.processed
        then (ok tt, s)
        else (do
          relayed ← attempt (in_net (relay_deposit log))
          modify (mark_processed log.deposit_id relayed))
            s

    unfoldable pub relay_logs : List EthLog → Exec Failure (BridgeRelayer o) (Unit {0})
    relay_logs [] = pure tt
    relay_logs (log ∷ logs) = do relay_log log; relay_logs logs

    -- At most once for each epoch, and only if there are deposits.
    unfoldable pub update_head : ℕ → List EthLog → Exec Failure (BridgeRelayer o) (Unit {0})
    update_head latest logs s =
        if not (nat_eq (length logs) 0) && ltb s.last_helios_epoch (latest / slots_per_epoch)
        then (do
          updated ← attempt (in_net submit_helios_update)
          modify (mark_epoch (latest / slots_per_epoch) updated))
            s
        else (ok tt, s)

    unfoldable pub scan_and_relay : ℕ → Exec Failure (BridgeRelayer o) ℕ
    scan_and_relay from_block = do
      latest ← in_net (get_latest_block o config)
      if ltb latest from_block then pure latest else (do
        logs ← in_net (get_deposit_events o config from_block latest)
        update_head latest logs
        relay_logs logs
        pure latest)

-- The loop of `run`, between two rounds; `running` is false once a round has panicked.
pub record Run (o : Outside) : Type 0 where
  pub from_block : ℕ
  pub relayer : BridgeRelayer o
  pub running : Bool

-- `last_block.saturating_add(1)`
abbrev pub next_block : ℕ → ℕ
next_block last_block = if ltb last_block (2 ^ 64 - 1) then last_block + 1 else last_block

module _ (o : Outside) where
  abbrev pub after_round : ℕ → Result Failure ℕ × BridgeRelayer o → Run o
  after_round from_block (ok last_block, s) = record {
    from_block = next_block last_block;
    relayer = s;
    running = true;
  }
  after_round from_block (err e, s) = record {
    from_block = from_block;
    relayer = s;
    running = passes e;
  }

  module _ (config : RelayerConfig) where
    unfoldable pub round : Run o → Run o
    unfolding passes
    round run =
        if run.running
        then after_round run.from_block (scan_and_relay o config run.from_block run.relayer)
        else run

    -- `BridgeRelayer::new`, and `run` before its first round.
    abbrev pub start : o.World → Run o
    start world = record {
      from_block = config.start_block;
      relayer = record {
        net = record { world = world; sent = [] };
        processed = [];
        last_helios_epoch = 0;
      };
      running = true;
    }

    unfoldable pub rounds : ℕ → o.World → Run o
    rounds zero world = start world
    rounds (suc n) world = round (rounds n world)
