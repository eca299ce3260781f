-- ===== src/Bridge/Success.antt =====
-- When a call of the bridge succeeds, and the state that it leaves then.
use obscura_network.Prelude.{
  ◌≡◌, sym, ap, ◌∙◌, inl, inr, true, false, Bytes, Bytes_Eq, nat_eq, bytes_eq_sound, arith, ok,
  Result-cases,
}
use obscura_network.Privacy.State.{has_room, insert_commitment}
use obscura_network.Privacy.Handlers.{push_commitment, add_supply}
use obscura_network.Privacy.Success.{with_leaf}
use obscura_network.Bridge.Types.{
  Env, ClaimDeposit, WithdrawBridge, UpdateHeliosHead, State, BridgeEvent, withdrawal_initiated,
}
use obscura_network.Bridge.Keys.{make_deposit_key_str, withdrawal_key}
use obscura_network.Bridge.Verifier.{verify_bridge_proof, verify_helios_proof}
use obscura_network.Bridge.Handlers.{
  configured, is_processed, block_proven, bridged_usdc_asset, mark_claimed, count_claim,
  handle_claim_deposit, claimed_amount, next_id, record_withdrawal, handle_withdraw_bridge, links,
  advances, gap_allowed, advance_head, handle_update_helios_head,
}

-- The state after a claim: the marks, the new note in the pool, and the totals.
unfoldable pub claimed : Env → ClaimDeposit → State → State
claimed env claim s =
    let inputs = claim.public_inputs in
    count_claim inputs.amount
      (record (mark_claimed (make_deposit_key_str env inputs.bridge_contract inputs.deposit_id)
        inputs.deposit_id inputs.amount s) {
          obscura_privacy =
              add_supply bridged_usdc_asset inputs.amount
                (with_leaf env.privacy inputs.obscura_recipient s.obscura_privacy);
        })

module _ (env : Env) (s s' : State) (event : BridgeEvent) where
  module _ (claim : ClaimDeposit) (h : handle_claim_deposit env claim s ≡ (ok event, s')) where
    claim-amount : nat_eq claim.public_inputs.amount 0 ≡ false
    unfolding handle_claim_deposit
    claim-amount = ground arith

    claim-configured : configured env s ≡ ok claim.public_inputs.bridge_contract
    unfolding handle_claim_deposit
    claim-configured = elim (Result-cases (configured env s)) [
      | inl (c, e) ↦
          e ∙ ap ok (sym (bytes_eq_sound claim.public_inputs.bridge_contract c (ground arith)))
      | inr (x, e) ↦ absurd (ground arith)
    ]

    claim-fresh :
        is_processed
          (make_deposit_key_str env claim.public_inputs.bridge_contract
            claim.public_inputs.deposit_id)
          s
        ≡ false
    unfolding handle_claim_deposit
    claim-fresh = ground arith

    claim-proven : block_proven env claim.public_inputs.eth_block_hash s ≡ true
    unfolding handle_claim_deposit
    claim-proven = ground arith

    claim-verified : verify_bridge_proof env claim.proof claim.public_inputs ≡ ok tt
    unfolding handle_claim_deposit
    claim-verified = ground arith

    claim-room : has_room s.obscura_privacy ≡ true
    unfolding handle_claim_deposit insert_commitment push_commitment mark_claimed has_room
    claim-room = ground arith

    claim-state : s' ≡ claimed env claim s
    unfolding handle_claim_deposit claimed with_leaf insert_commitment mark_claimed
    claim-state = ground arith

  pub handle_claim_deposit-ok :
      (claim : ClaimDeposit)
      → handle_claim_deposit env claim s ≡ (ok event, s')
      → (nat_eq claim.public_inputs.amount 0 ≡ false)
        × (configured env s ≡ ok claim.public_inputs.bridge_contract)
        × (is_processed
              (make_deposit_key_str env claim.public_inputs.bridge_contract
                claim.public_inputs.deposit_id)
              s
            ≡ false)
        × (block_proven env claim.public_inputs.eth_block_hash s ≡ true)
        × (verify_bridge_proof env claim.proof claim.public_inputs ≡ ok tt)
        × (has_room s.obscura_privacy ≡ true)
        × (s' ≡ claimed env claim s)
  handle_claim_deposit-ok claim h = (
    claim-amount claim h,
    claim-configured claim h,
    claim-fresh claim h,
    claim-proven claim h,
    claim-verified claim h,
    claim-room claim h,
    claim-state claim h,
  )

  pub handle_withdraw_bridge-ok :
      (msg : WithdrawBridge)
      → handle_withdraw_bridge env msg s ≡ (ok event, s')
      → (contract : Bytes) × (configured env s ≡ ok contract)
        × (is_processed (make_deposit_key_str env contract msg.deposit_id) s ≡ true)
        × (is_processed (withdrawal_key msg.deposit_id) s ≡ false)
        × (nat_eq (claimed_amount msg.deposit_id s) 0 ≡ false)
        × (event
            ≡ withdrawal_initiated
                (next_id s)
                msg.deposit_id
                msg.eth_recipient
                (claimed_amount msg.deposit_id s))
        × (s' ≡ record_withdrawal msg (claimed_amount msg.deposit_id s) (next_id s) s)
  unfolding handle_withdraw_bridge
  handle_withdraw_bridge-ok msg h = elim (Result-cases (configured env s)) [
    | inl (c, e) ↦ (c, e, ground arith, ground arith, ground arith, ground arith, ground arith)
    | inr (x, e) ↦ absurd (ground arith)
  ]

  pub handle_update_helios_head-ok :
      (update : UpdateHeliosHead)
      → handle_update_helios_head env update s ≡ (ok event, s')
      → (links update s ≡ true)
        × (advances update s ≡ true)
        × (gap_allowed update s ≡ true)
        × (verify_helios_proof env update.proof update.public_inputs ≡ ok tt)
        × (s' ≡ advance_head env update s)
  unfolding handle_update_helios_head
  handle_update_helios_head-ok update h = ground arith
