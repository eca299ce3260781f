-- ===== src/Runtime/Deposits.antt =====
-- Claims and withdrawals of one deposit, and the calls that come later.
use obscura_network.Prelude.{
  ℕ, ◌≡◌, ◌≢◌, sym, subst, inl, inr, true, Bytes, bytes_eq, bytes_eq_self, Bytes_Eq, Bool-cases, ok,
}
use obscura_network.Bridge.Types.{Env, State, ClaimDeposit, WithdrawBridge, BridgeEvent}
use obscura_network.Bridge.Keys.{make_deposit_key_str, withdrawal_key}
use obscura_network.Bridge.Handlers.{
  is_processed, record_withdrawal, advance_head, count_claim, mark_claimed, handle_claim_deposit,
  handle_withdraw_bridge,
}
use obscura_network.Bridge.Success.{claimed, handle_claim_deposit-ok, handle_withdraw_bridge-ok}
use obscura_network.Runtime.{Reach}
use obscura_network.Runtime.Keeps.{IsKept, Reach-kept}

module _ (env : Env) (key : Bytes) where
  abbrev pub Processed : State → Type 0
  Processed s = is_processed key s ≡ true

  Processed-claimed :
      (claim : ClaimDeposit) (s : State) → Processed s → Processed (claimed env claim s)
  unfolding claimed count_claim mark_claimed is_processed
  Processed-claimed claim s p =
      elim (Bool-cases (
        bytes_eq
          (make_deposit_key_str env claim.public_inputs.bridge_contract
            claim.public_inputs.deposit_id)
          key)) [ inl same ↦ rw same | inr other ↦ rw other p ]

  Processed-withdrawal :
      (msg : WithdrawBridge) (n id : ℕ) (s : State)
      → Processed s
      → Processed (record_withdrawal msg n id s)
  unfolding record_withdrawal is_processed
  Processed-withdrawal msg n id s p =
      elim (Bool-cases (bytes_eq (withdrawal_key msg.deposit_id) key)) [
        | inl same ↦ rw same
        | inr other ↦ rw other p
      ]

  pub Processed-kept : IsKept env Processed
  unfolding advance_head is_processed
  Processed-kept = record {
    by_pool = λ context msg event pool s h p. p;
    by_claim = λ claim s config fresh room p. Processed-claimed claim s p;
    by_withdrawal = Processed-withdrawal;
    by_head = λ update s forward p. p;
  }

pub marked-claimed :
    (env : Env) (claim : ClaimDeposit) (s : State)
    → is_processed
        (make_deposit_key_str env claim.public_inputs.bridge_contract
          claim.public_inputs.deposit_id)
        (claimed env claim s)
      ≡ true
unfolding claimed count_claim mark_claimed is_processed
marked-claimed env claim s = rw (
    bytes_eq_self
      (make_deposit_key_str env claim.public_inputs.bridge_contract claim.public_inputs.deposit_id))

marked-withdrawal :
    (msg : WithdrawBridge) (n id : ℕ) (s : State)
    → is_processed (withdrawal_key msg.deposit_id) (record_withdrawal msg n id s) ≡ true
unfolding record_withdrawal is_processed
marked-withdrawal msg n id s = rw (bytes_eq_self (withdrawal_key msg.deposit_id))

-- A deposit of a contract that was claimed is not claimed again, whatever successful calls come
-- between.
pub claim_once :
    (env : Env) (claim claim' : ClaimDeposit) (event event' : BridgeEvent) (s s' t t' : State)
    → claim'.public_inputs.deposit_id ≡ claim.public_inputs.deposit_id
    → claim'.public_inputs.bridge_contract ≡ claim.public_inputs.bridge_contract
    → handle_claim_deposit env claim s ≡ (ok event, s')
    → Reach env s' t
    → handle_claim_deposit env claim' t ≢ (ok event', t')
claim_once env claim claim' event event' s s' t t' same_id same_contract h later h' =
    let (_, _, _, _, _, _, e) = handle_claim_deposit-ok env s s' event claim h in
    let (_, _, fresh, _, _, _, _) = handle_claim_deposit-ok env t t' event' claim' h' in
    let key =
      make_deposit_key_str env claim.public_inputs.bridge_contract claim.public_inputs.deposit_id in
    let p : is_processed key t ≡ true =
      Reach-kept env (Processed env key) (Processed-kept env key) later
        (subst (Processed env key) (sym e) (marked-claimed env claim s)) in
    cc (p, fresh, same_id, same_contract)

-- A deposit that was withdrawn is not withdrawn again, to whatever address, whatever successful calls
-- come between.
pub withdraw_once :
    (env : Env) (msg msg' : WithdrawBridge) (event event' : BridgeEvent) (s s' t t' : State)
    → msg'.deposit_id ≡ msg.deposit_id
    → handle_withdraw_bridge env msg s ≡ (ok event, s')
    → Reach env s' t
    → handle_withdraw_bridge env msg' t ≢ (ok event', t')
withdraw_once env msg msg' event event' s s' t t' same_id h later h' =
    let (_, _, _, _, _, _, e) = handle_withdraw_bridge-ok env s s' event msg h in
    let (_, _, _, fresh, _, _, _) = handle_withdraw_bridge-ok env t t' event' msg' h' in
    let key = withdrawal_key msg.deposit_id in
    let p : is_processed key t ≡ true =
      Reach-kept env (Processed env key) (Processed-kept env key) later
        (subst (Processed env key) (sym e) (marked-withdrawal msg _ _ s)) in
    cc (p, fresh, same_id)
