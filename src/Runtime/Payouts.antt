-- ===== src/Runtime/Payouts.antt =====
-- The withdrawal of a claimed deposit.
use obscura_network.Prelude.{
  ℕ, ◌≡◌, ◌≢◌, sym, ap, subst, ◌∙◌, true, false, Bytes, insert_self, insert_ne, ℕ_Eq, nat_eq,
  unwrap_or, arith, ok,
}
use obscura_network.Bridge.Types.{
  Env, State, ClaimDeposit, WithdrawBridge, BridgeEvent, withdrawal_initiated,
}
use obscura_network.Bridge.Keys.{make_deposit_key_str, withdrawal_key}
use obscura_network.Bridge.Handlers.{
  configured, is_processed, claimed_amount, next_id, record_withdrawal, advance_head, count_claim,
  mark_claimed, handle_claim_deposit, handle_withdraw_bridge,
}
use obscura_network.Bridge.Success.{claimed, handle_claim_deposit-ok}
use obscura_network.Runtime.{Reach}
use obscura_network.Runtime.Keeps.{IsKept, Reach-kept}
use obscura_network.Runtime.Deposits.{Processed-kept, marked-claimed}

-- The deposit is claimed on the contract of the configuration, for an amount.
module _ (env : Env) (contract : Bytes) (id amount : ℕ) where
  record IsHeld (s : State) : Type 0 where
    on_contract : configured env s ≡ ok contract
    processed : is_processed (make_deposit_key_str env contract id) s ≡ true
    holds : claimed_amount id s ≡ amount

  claimed_amount-claimed :
      (claim : ClaimDeposit) (s : State)
      → claim.public_inputs.deposit_id ≢ id
      → claimed_amount id (claimed env claim s) ≡ claimed_amount id s
  unfolding claimed count_claim mark_claimed claimed_amount
  claimed_amount-claimed claim s ne =
      ap (λ o. unwrap_or o 0)
        (insert_ne s.claimed_amounts claim.public_inputs.deposit_id id claim.public_inputs.amount
          ne)

  IsHeld-claimed :
      (claim : ClaimDeposit) (s : State)
      → configured env s ≡ ok claim.public_inputs.bridge_contract
      → is_processed
          (make_deposit_key_str env claim.public_inputs.bridge_contract
            claim.public_inputs.deposit_id)
          s
        ≡ false
      → IsHeld s
      → is_processed (make_deposit_key_str env contract id) (claimed env claim s) ≡ true
      → IsHeld (claimed env claim s)
  unfolding claimed count_claim mark_claimed configured
  IsHeld-claimed claim s config fresh h p = record {
    on_contract = h.on_contract;
    processed = p;
    holds =
        claimed_amount-claimed claim s (λ e.
          let same : ok claim.public_inputs.bridge_contract ≡ ok contract =
            sym config ∙ h.on_contract in
          cc (h.processed, fresh, e, same))
        ∙ h.holds;
  }

  IsHeld-kept : IsKept env IsHeld
  unfolding record_withdrawal advance_head configured claimed_amount is_processed
  IsHeld-kept =
      let kept = Processed-kept env (make_deposit_key_str env contract id) in
      record {
        by_pool = λ context msg event pool s e h. record {
          on_contract = h.on_contract;
          processed = h.processed;
          holds = h.holds;
        };
        by_claim = λ claim s config fresh room h.
            IsHeld-claimed claim s config fresh h
              (kept.by_claim claim s config fresh room h.processed);
        by_withdrawal = λ msg n k s h. record {
          on_contract = h.on_contract;
          processed = kept.by_withdrawal msg n k s h.processed;
          holds = h.holds;
        };
        by_head = λ update s forward h. record {
          on_contract = h.on_contract;
          processed = h.processed;
          holds = h.holds;
        };
      }

IsHeld-start :
    (env : Env) (claim : ClaimDeposit) (s : State)
    → configured env s ≡ ok claim.public_inputs.bridge_contract
    → IsHeld env claim.public_inputs.bridge_contract claim.public_inputs.deposit_id
        claim.public_inputs.amount
        (claimed env claim s)
unfolding claimed count_claim mark_claimed configured claimed_amount
IsHeld-start env claim s config = record {
  on_contract = config;
  processed = marked-claimed env claim s;
  holds =
      ap (λ o. unwrap_or o 0)
        (insert_self s.claimed_amounts claim.public_inputs.deposit_id claim.public_inputs.amount);
}

IsHeld-withdraw :
    (env : Env) (contract : Bytes) (amount : ℕ) (msg : WithdrawBridge) (t : State)
    → IsHeld env contract msg.deposit_id amount t
    → nat_eq amount 0 ≡ false
    → is_processed (withdrawal_key msg.deposit_id) t ≡ false
    → handle_withdraw_bridge env msg t ≡ (
      ok (withdrawal_initiated (next_id t) msg.deposit_id msg.eth_recipient amount),
      record_withdrawal msg amount (next_id t) t,
    )
unfolding handle_withdraw_bridge
IsHeld-withdraw env contract amount msg t h pos unmarked =
    ground (arith, h.on_contract, h.processed, h.holds)

-- Once a deposit is claimed, and for as long as no withdrawal of it is marked, whatever successful
-- calls come between, whoever asks is paid: the withdrawal succeeds, with the amount of the claim,
-- to the address that the message names, and its writes are those of the record alone.
pub withdraw_pays_claim :
    (env : Env) (claim : ClaimDeposit) (msg : WithdrawBridge) (event : BridgeEvent) (s s' t : State)
    → msg.deposit_id ≡ claim.public_inputs.deposit_id
    → handle_claim_deposit env claim s ≡ (ok event, s')
    → Reach env s' t
    → is_processed (withdrawal_key msg.deposit_id) t ≡ false
    → handle_withdraw_bridge env msg t ≡ (
      ok (
          withdrawal_initiated
            (next_id t)
            msg.deposit_id
            msg.eth_recipient
            claim.public_inputs.amount),
      record_withdrawal msg claim.public_inputs.amount (next_id t) t,
    )
withdraw_pays_claim env claim msg event s s' t same h later unmarked =
    let (pos, config, _, _, _, _, e) = handle_claim_deposit-ok env s s' event claim h in
    let inputs = claim.public_inputs in
    let held = IsHeld env inputs.bridge_contract inputs.deposit_id inputs.amount in
    let at_t : held t =
      Reach-kept env held (IsHeld-kept env inputs.bridge_contract inputs.deposit_id inputs.amount)
        later (subst held (sym e) (IsHeld-start env claim s config)) in
    IsHeld-withdraw env inputs.bridge_contract inputs.amount msg t
      (subst (λ id. IsHeld env inputs.bridge_contract id inputs.amount t) (sym same) at_t) pos
      unmarked
