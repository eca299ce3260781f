-- ===== src/Tests/Chain.antt =====
-- Runs of the two modules together.
use obscura_network.Prelude.{
  ℕ, ◌+◌, ◌≤◌, ◌<◌, ◌≡◌, ◌≢◌, ◌↔◌, refl, true, some, Bytes, length, take, unwrap_or, ok, arith,
  bytes_eq,
}
use obscura_network.Merkle.{zero_bytes, roots_history_size}
use obscura_network.Merkle.Tree.{tree_root}
use obscura_network.Privacy.Types.{shield, unshield, shielded, unshielded, from_note}
use obscura_network.Privacy.Zk.{verify_unshield_proof}
use obscura_network.Privacy.State as PrivacyState
use obscura_network.Privacy.Handlers as PrivacyHandlers
use obscura_network.Bridge.Types.{
  State, default_helios, deposit_claimed, withdrawal_initiated, helios_head_updated,
  update_helios_head,
}
use obscura_network.Bridge.Keys.{
  make_deposit_key_str, withdrawal_key, parse_contract_address, decimal, block_key,
}
use obscura_network.Bridge.Verifier.{verify_bridge_proof, verify_helios_proof}
use obscura_network.Bridge.Handlers.{
  call, genesis, configured, is_processed, block_proven, current_slot, claimed_amount, next_id,
  links, advances, gap_allowed, handle_claim_deposit, handle_withdraw_bridge,
  handle_update_helios_head, mark_claimed, advance_head, record_withdrawal, count_claim,
}
use obscura_network.Runtime.{start, Reach, here, next, pool_call, bridge_call}
use obscura_network.Runtime.Spending.{no_double_spend}
use obscura_network.Runtime.Pool.{Reach-tree}
use obscura_network.Runtime.Payouts.{withdraw_pays_claim}
use obscura_network.Runtime.Deposits.{claim_once, withdraw_once}
use obscura_network.Runtime.Head.{update_helios_head-forward}
use obscura_network.Runtime.Finalized.{Finality, proven_slot, claim_finalized}
use obscura_network.Tests.Data.{
  env, pool_env, config, alice, bob, note_commitment, commitment, nullifier, shield_note,
  unshield_30, claim_100, withdraw_12, head_64, eth_block,
}

abbrev first : State
first = start env config

-- After an unshield.
abbrev drained_pool : PrivacyState.State
drained_pool = (PrivacyHandlers.call pool_env alice (unshield unshield_30) first.obscura_privacy).1

drained_pool_lem :
    PrivacyHandlers.call pool_env alice (unshield unshield_30) first.obscura_privacy
    ≡ (ok (unshielded nullifier 30), drained_pool)
unfolding PrivacyHandlers.call PrivacyHandlers.handle_unshield verify_unshield_proof bytes_eq
    PrivacyHandlers.is_spent start genesis PrivacyState.genesis
drained_pool_lem = refl

no_double_spend_example :
    PrivacyHandlers.call pool_env bob (unshield unshield_30) drained_pool
    ≢ (ok (unshielded nullifier 30), drained_pool)
no_double_spend_example =
    no_double_spend env alice bob (unshield unshield_30) (unshield unshield_30)
      (unshielded nullifier 30) (unshielded nullifier 30) first
      (record first { obscura_privacy = drained_pool }) drained_pool drained_pool nullifier refl
      drained_pool_lem here refl

-- After a shield.
abbrev stocked_pool : PrivacyState.State
stocked_pool = (PrivacyHandlers.call pool_env alice (shield shield_note) first.obscura_privacy).1

stocked_pool_lem :
    PrivacyHandlers.call pool_env alice (shield shield_note) first.obscura_privacy
    ≡ (ok (shielded note_commitment), stocked_pool)
unfolding PrivacyHandlers.handle_shield PrivacyState.insert_commitment PrivacyHandlers.call
    from_note PrivacyState.has_room PrivacyHandlers.push_commitment start genesis
    PrivacyState.genesis
stocked_pool_lem = refl

abbrev stocked : State
stocked = record first { obscura_privacy = stocked_pool }

stocked-Reach : Reach env first stocked
stocked-Reach = next here (
    pool_call alice (shield shield_note) (shielded note_commitment) stocked_pool stocked_pool_lem
      refl)

Reach-tree_example :
    (stocked.obscura_privacy.merkle_root
      ≡ some (tree_root env.sha256 stocked.obscura_privacy.commitments))
    × (stocked.obscura_privacy.merkle_next_index
        ≡ some (length stocked.obscura_privacy.commitments))
    × ((root : Bytes)
        → (PrivacyState.is_known_root root stocked.obscura_privacy ≡ true) ↔ (
            (k : ℕ) × (k < length stocked.obscura_privacy.commitments)
            × (length stocked.obscura_privacy.commitments ≤ k + roots_history_size)
            × (root ≡ tree_root env.sha256 (take (k + 1) stocked.obscura_privacy.commitments))))
Reach-tree_example = Reach-tree env config stocked stocked-Reach

-- After a claim.
abbrev claimed : State
claimed = (handle_claim_deposit env claim_100 first).1

claimed_lem :
    handle_claim_deposit env claim_100 first
    ≡ (ok (deposit_claimed 12 commitment 100 eth_block), claimed)
unfolding handle_claim_deposit bytes_eq configured parse_contract_address start genesis is_processed
    block_proven verify_bridge_proof PrivacyState.insert_commitment PrivacyState.has_room
    PrivacyHandlers.push_commitment mark_claimed PrivacyState.genesis
claimed_lem = refl

claim_once_example :
    handle_claim_deposit env claim_100 claimed
    ≢ (ok (deposit_claimed 12 commitment 100 eth_block), claimed)
claim_once_example =
    claim_once env claim_100 claim_100 (deposit_claimed 12 commitment 100 eth_block)
      (deposit_claimed 12 commitment 100 eth_block) first claimed claimed claimed refl refl
      claimed_lem here

-- After the withdrawal of a deposit that was claimed.
abbrev held : State
held =
    mark_claimed (make_deposit_key_str env claim_100.public_inputs.bridge_contract 12) 12 100 first

abbrev withdrawn : State
withdrawn = (handle_withdraw_bridge env withdraw_12 held).1

withdrawn_lem :
    handle_withdraw_bridge env withdraw_12 held
    ≡ (ok (withdrawal_initiated 0 12 withdraw_12.eth_recipient 100), withdrawn)
unfolding handle_withdraw_bridge configured parse_contract_address mark_claimed start genesis
    is_processed bytes_eq make_deposit_key_str decimal withdrawal_key claimed_amount next_id
withdrawn_lem = refl

withdraw_once_example :
    handle_withdraw_bridge env withdraw_12 withdrawn
    ≢ (ok (withdrawal_initiated 1 12 withdraw_12.eth_recipient 100), withdrawn)
withdraw_once_example =
    withdraw_once env withdraw_12 withdraw_12
      (withdrawal_initiated 0 12 withdraw_12.eth_recipient 100)
      (withdrawal_initiated 1 12 withdraw_12.eth_recipient 100) held withdrawn withdrawn withdrawn
      refl withdrawn_lem here

-- After an update of the head.
abbrev ahead : State
ahead = (handle_update_helios_head env head_64 first).1

ahead_lem : handle_update_helios_head env head_64 first ≡ (
  ok (helios_head_updated zero_bytes head_64.public_inputs.new_beacon_root 64 eth_block),
  ahead,
)
unfolding handle_update_helios_head links bytes_eq start genesis advances gap_allowed
    verify_helios_proof
ahead_lem = refl

update_helios_head-forward_example :
    (head_64.public_inputs.prev_trusted_root ≡ unwrap_or first.trusted_beacon_root zero_bytes)
    × (current_slot first < 64)
    × (0 < current_slot first
        → 64 ≤ current_slot first + (unwrap_or first.helios_config default_helios).max_slot_gap)
    × (ahead.trusted_beacon_root ≡ some head_64.public_inputs.new_beacon_root)
    × (current_slot ahead ≡ 64)
    × (64 ≤ current_slot ahead)
update_helios_head-forward_example =
    update_helios_head-forward env head_64
      (helios_head_updated zero_bytes head_64.public_inputs.new_beacon_root 64 eth_block) first
      ahead ahead ahead_lem here

ahead-Reach : Reach env first ahead
unfolding call handle_update_helios_head
ahead-Reach = next here (
    bridge_call (update_helios_head head_64)
      (helios_head_updated zero_bytes head_64.public_inputs.new_beacon_root 64 eth_block) ahead_lem)

-- And a claim from the block that it proved.
abbrev claimed_later : State
claimed_later = (handle_claim_deposit env claim_100 ahead).1

claimed_later_lem :
    handle_claim_deposit env claim_100 ahead
    ≡ (ok (deposit_claimed 12 commitment 100 eth_block), claimed_later)
unfolding handle_claim_deposit bytes_eq configured parse_contract_address handle_update_helios_head
    links start genesis advances gap_allowed verify_helios_proof advance_head is_processed
    block_proven block_key verify_bridge_proof PrivacyState.insert_commitment PrivacyState.has_room
    PrivacyHandlers.push_commitment mark_claimed PrivacyState.genesis
claimed_later_lem = refl

claim_finalized_example :
    (f : Finality env first ahead (block_key env eth_block) (proven_slot env eth_block ahead))
    × (f.update.public_inputs.execution_block_hash ≡ eth_block)
    × (0 < f.update.public_inputs.new_slot)
    × (f.update.public_inputs.new_slot ≤ current_slot ahead)
unfolding current_slot handle_update_helios_head links bytes_eq start genesis advances gap_allowed
    verify_helios_proof advance_head
claim_finalized_example =
    claim_finalized env config (λ x y e. e) claim_100 (deposit_claimed 12 commitment 100 eth_block)
      ahead claimed_later ahead-Reach claimed_later_lem (omega arith)

withdraw_pays_claim_example : handle_withdraw_bridge env withdraw_12 claimed ≡ (
  ok (withdrawal_initiated (next_id claimed) 12 withdraw_12.eth_recipient 100),
  record_withdrawal withdraw_12 100 (next_id claimed) claimed,
)
unfolding is_processed handle_claim_deposit bytes_eq configured parse_contract_address start genesis
    block_proven verify_bridge_proof PrivacyState.insert_commitment PrivacyState.has_room
    PrivacyHandlers.push_commitment mark_claimed PrivacyState.genesis count_claim
    make_deposit_key_str withdrawal_key decimal
withdraw_pays_claim_example =
    withdraw_pays_claim env claim_100 withdraw_12 (deposit_claimed 12 commitment 100 eth_block)
      first claimed claimed refl claimed_lem here refl
