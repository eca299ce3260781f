-- ===== src/Bridge/Handlers.antt =====
-- crates/zk-bridge/src/module.rs: genesis, the three calls, and the change of the configuration.
-- Each handler returns the event that it emits.
use obscura_network.Prelude.{
  ℕ, Bool, true, false, ◌&&◌, ◌||◌, not, none, some, [], ◌∷◌, Bytes, empty_map, insert, ◌==◌, ℕ_Eq,
  Bytes_Eq, unwrap_or, nat_eq, ltb, leb, wrapping_add, saturating_sub, Result, ok, err,
}
use obscura_network.Prelude.Exec.{Exec, ◌>>=◌, ◌>>◌, pure, lift, gets, require, modify}
use obscura_network.Merkle.{zero_bytes}
use obscura_network.Privacy.Types as PrivacyTypes
use obscura_network.Privacy.State as PrivacyState
use obscura_network.Privacy.Zk.{is_empty}
use obscura_network.Privacy.Handlers.{push_commitment, add_supply, Context}
use obscura_network.Bridge.Types.{
  Env, Error, zero_amount, zero_recipient, wrong_contract, already_claimed, block_not_proven,
  pool_error, not_claimed, already_withdrawn, no_claimed_amount, prev_root_mismatch,
  slot_not_advancing, slot_gap_too_large, not_admin, ClaimDeposit, WithdrawBridge, UpdateHeliosHead,
  default_helios, BridgeConfig, default_config, State, BridgeCallMessage, claim_deposit,
  withdraw_bridge, update_helios_head, BridgeEvent, deposit_claimed, withdrawal_initiated,
  config_updated, helios_head_updated,
}
use obscura_network.Bridge.Keys.{
  make_deposit_key_str, withdrawal_key, block_key, parse_contract_address,
}
use obscura_network.Bridge.Verifier.{verify_bridge_proof, verify_helios_proof}

-- The state of the bridge before its genesis, over that of the pool.
abbrev pub blank : PrivacyState.State → State
blank pool = record {
  config = none;
  processed_deposits = empty_map;
  total_bridged_usdc = none;
  total_claims = none;
  claimed_amounts = empty_map;
  withdrawals = empty_map;
  next_withdrawal_id = none;
  total_withdrawn_usdc = none;
  helios_config = none;
  trusted_beacon_root = none;
  trusted_slot = none;
  finalized_eth_blocks = empty_map;
  helios_update_count = none;
  obscura_privacy = pool;
}

unfoldable pub genesis : BridgeConfig → State → State
genesis config s = record s {
  config = some config;
  total_bridged_usdc = some 0;
  total_claims = some 0;
  next_withdrawal_id = some 0;
  total_withdrawn_usdc = some 0;
  helios_update_count = some 0;
  trusted_beacon_root = some config.helios.initial_trusted_beacon_root;
  trusted_slot = some config.helios.initial_trusted_slot;
  helios_config = some config.helios;
}

-- A call of the privacy module on its part of the state.
abbrev pub in_pool :
    Exec PrivacyTypes.Error PrivacyState.State (Unit {0}) → Exec Error State (Unit {0})
in_pool m s = elim (m s.obscura_privacy).0 [
  | ok u ↦ (ok u, record s { obscura_privacy = (m s.obscura_privacy).1 })
  | err e ↦ (err (pool_error e), record s { obscura_privacy = (m s.obscura_privacy).1 })
]

unfoldable pub is_processed : Bytes → State → Bool
is_processed key s = unwrap_or (s.processed_deposits key) false

unfoldable pub current_slot : State → ℕ
current_slot s = unwrap_or s.trusted_slot 0

unfoldable pub configured : Env → State → Result Error Bytes
configured env s =
    parse_contract_address env (unwrap_or s.config default_config).bridge_contract_address

-- Helios is not active, or the block was proven finalized.
unfoldable pub block_proven : Env → Bytes → State → Bool
unfolding current_slot
block_proven env block_hash s = not (
    ltb 0 (current_slot s)
    && nat_eq (unwrap_or (s.finalized_eth_blocks (block_key env block_hash)) 0) 0)

-- b"bridged-usdc-obscura-network-v01"
abbrev pub bridged_usdc_asset : Bytes
bridged_usdc_asset =
    b'b' ∷ b'r' ∷ b'i' ∷ b'd' ∷ b'g' ∷ b'e' ∷ b'd' ∷ b'-' ∷ b'u' ∷ b's' ∷ b'd' ∷ b'c' ∷ b'-' ∷ b'o'
    ∷ b'b' ∷ b's' ∷ b'c' ∷ b'u' ∷ b'r' ∷ b'a' ∷ b'-' ∷ b'n' ∷ b'e' ∷ b't' ∷ b'w' ∷ b'o' ∷ b'r'
    ∷ b'k' ∷ b'-' ∷ b'v' ∷ b'0' ∷ b'1' ∷ []

-- Step 5: the deposit is processed, and its amount is kept for its withdrawal.
unfoldable pub mark_claimed : Bytes → ℕ → ℕ → State → State
mark_claimed key deposit_id amount s = record s {
  processed_deposits = insert s.processed_deposits key true;
  claimed_amounts = insert s.claimed_amounts deposit_id amount;
}

-- The totals, at the end of step 6.
unfoldable pub count_claim : ℕ → State → State
count_claim amount s = record s {
  total_bridged_usdc = some (wrapping_add (unwrap_or s.total_bridged_usdc 0) amount);
  total_claims = some (wrapping_add (unwrap_or s.total_claims 0) 1);
}

unfoldable pub handle_claim_deposit : Env → ClaimDeposit → Exec Error State BridgeEvent
handle_claim_deposit env claim = do
  let inputs = claim.public_inputs
  require (λ _. not (nat_eq inputs.amount 0)) zero_amount
  require (λ _. not (inputs.obscura_recipient == zero_bytes)) zero_recipient
  configuration ← gets (configured env)
  expected_contract ← lift configuration
  require (λ _. inputs.bridge_contract == expected_contract) wrong_contract
  let deposit_key = make_deposit_key_str env inputs.bridge_contract inputs.deposit_id
  require (λ s. not (is_processed deposit_key s)) already_claimed
  require (block_proven env inputs.eth_block_hash) block_not_proven
  lift (verify_bridge_proof env claim.proof inputs)
  modify (mark_claimed deposit_key inputs.deposit_id inputs.amount)
  modify (λ s. record s {
    obscura_privacy = push_commitment inputs.obscura_recipient s.obscura_privacy;
  })
  in_pool (PrivacyState.insert_commitment env.privacy inputs.obscura_recipient)
  modify (λ s. record s {
    obscura_privacy = add_supply bridged_usdc_asset inputs.amount s.obscura_privacy;
  })
  modify (count_claim inputs.amount)
  pure (
      deposit_claimed inputs.deposit_id inputs.obscura_recipient inputs.amount
        inputs.eth_block_hash)

unfoldable pub claimed_amount : ℕ → State → ℕ
claimed_amount deposit_id s = unwrap_or (s.claimed_amounts deposit_id) 0

unfoldable pub next_id : State → ℕ
next_id s = unwrap_or s.next_withdrawal_id 0

-- Step 4: the identifier, the mark, the record and the total.
unfoldable pub record_withdrawal : WithdrawBridge → ℕ → ℕ → State → State
record_withdrawal msg amount withdrawal_id s = record s {
  next_withdrawal_id = some (wrapping_add withdrawal_id 1);
  processed_deposits = insert s.processed_deposits (withdrawal_key msg.deposit_id) true;
  withdrawals = insert s.withdrawals withdrawal_id (record {
    withdrawal_id = withdrawal_id;
    deposit_id = msg.deposit_id;
    eth_recipient = msg.eth_recipient;
    amount = amount;
    relayed = false;
  });
  total_withdrawn_usdc = some (wrapping_add (unwrap_or s.total_withdrawn_usdc 0) amount);
}

unfoldable pub handle_withdraw_bridge : Env → WithdrawBridge → Exec Error State BridgeEvent
handle_withdraw_bridge env msg = do
  configuration ← gets (configured env)
  contract ← lift configuration
  require (is_processed (make_deposit_key_str env contract msg.deposit_id)) not_claimed
  require (λ s. not (is_processed (withdrawal_key msg.deposit_id) s)) already_withdrawn
  amount ← gets (claimed_amount msg.deposit_id)
  require (λ _. not (nat_eq amount 0)) no_claimed_amount
  withdrawal_id ← gets next_id
  modify (record_withdrawal msg amount withdrawal_id)
  pure (withdrawal_initiated withdrawal_id msg.deposit_id msg.eth_recipient amount)

-- The proof goes on from the root that is trusted now.
unfoldable pub links : UpdateHeliosHead → State → Bool
links update s =
    update.public_inputs.prev_trusted_root == unwrap_or s.trusted_beacon_root zero_bytes

unfoldable pub advances : UpdateHeliosHead → State → Bool
unfolding current_slot
advances update s = not (leb update.public_inputs.new_slot (current_slot s))

unfoldable pub gap_allowed : UpdateHeliosHead → State → Bool
unfolding current_slot
gap_allowed update s =
    let gap = saturating_sub update.public_inputs.new_slot (current_slot s) in
    not (ltb 0 (current_slot s) && ltb (unwrap_or s.helios_config default_helios).max_slot_gap gap)

-- Steps 5 to 7: the new head, the finalized block, and the counter.
unfoldable pub advance_head : Env → UpdateHeliosHead → State → State
advance_head env update s =
    let inputs = update.public_inputs in
    record s {
      trusted_beacon_root = some inputs.new_beacon_root;
      trusted_slot = some inputs.new_slot;
      finalized_eth_blocks =
          insert s.finalized_eth_blocks (block_key env inputs.execution_block_hash) inputs.new_slot;
      helios_update_count = some (wrapping_add (unwrap_or s.helios_update_count 0) 1);
    }

unfoldable pub handle_update_helios_head : Env → UpdateHeliosHead → Exec Error State BridgeEvent
handle_update_helios_head env update = do
  let inputs = update.public_inputs
  require (links update) prev_root_mismatch
  require (advances update) slot_not_advancing
  require (gap_allowed update) slot_gap_too_large
  lift (verify_helios_proof env update.proof inputs)
  modify (advance_head env update)
  pure (
      helios_head_updated inputs.prev_trusted_root inputs.new_beacon_root inputs.new_slot
        inputs.execution_block_hash)

-- Not reachable from a call message.
unfoldable pub may_update_config : Bytes → State → Bool
may_update_config sender s =
    let admin = (unwrap_or s.config default_config).admin in is_empty admin || sender == admin

unfoldable pub update_config : BridgeConfig → Context → Exec Error State BridgeEvent
update_config new_config context = do
  require (may_update_config context.sender) not_admin
  modify (λ s. record s { config = some new_config })
  pure config_updated

unfoldable pub call : Env → BridgeCallMessage → Exec Error State BridgeEvent
call env (claim_deposit claim) = handle_claim_deposit env claim
call env (withdraw_bridge withdraw) = handle_withdraw_bridge env withdraw
call env (update_helios_head update) = handle_update_helios_head env update
