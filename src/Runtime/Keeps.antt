-- ===== src/Runtime/Keeps.antt =====
-- To carry a predicate through any calls of the runtime.
use obscura_network.Prelude.{◌≡◌, sym, subst, ℕ, true, false, ok}
use obscura_network.Privacy.Types as PrivacyTypes
use obscura_network.Privacy.State as PrivacyState
use obscura_network.Privacy.State.{has_room}
use obscura_network.Privacy.Handlers as PrivacyHandlers
use obscura_network.Bridge.Types.{
  Env, State, ClaimDeposit, WithdrawBridge, UpdateHeliosHead, BridgeCallMessage, claim_deposit,
  withdraw_bridge, update_helios_head, BridgeEvent,
}
use obscura_network.Bridge.Keys.{make_deposit_key_str}
use obscura_network.Bridge.Handlers.{
  call, configured, is_processed, record_withdrawal, advances, advance_head,
}
use obscura_network.Bridge.Success.{
  claimed, handle_claim_deposit-ok, handle_withdraw_bridge-ok, handle_update_helios_head-ok,
}
use obscura_network.Runtime.{Step, pool_call, bridge_call, Reach, here, next}

-- A predicate that the pool's calls and the bridge's writes keep, with the checks that precede them.
pub record IsKept (env : Env) (P : State → Type 0) : Type 0 where
  pub by_pool :
      (context : PrivacyHandlers.Context) (msg : PrivacyTypes.CallMessage)
      (event : PrivacyTypes.PrivacyEvent) (pool : PrivacyState.State) (s : State)
      → PrivacyHandlers.call env.privacy context msg s.obscura_privacy ≡ (ok event, pool)
      → P s
      → P (record s { obscura_privacy = pool })
  pub by_claim :
      (claim : ClaimDeposit) (s : State)
      → configured env s ≡ ok claim.public_inputs.bridge_contract
      → is_processed
          (make_deposit_key_str env claim.public_inputs.bridge_contract
            claim.public_inputs.deposit_id)
          s
        ≡ false
      → has_room s.obscura_privacy ≡ true
      → P s
      → P (claimed env claim s)
  pub by_withdrawal :
      (msg : WithdrawBridge) (n id : ℕ) (s : State) → P s → P (record_withdrawal msg n id s)
  pub by_head :
      (update : UpdateHeliosHead) (s : State)
      → advances update s ≡ true
      → P s
      → P (advance_head env update s)

module _ (env : Env) (P : State → Type 0) (k : IsKept env P) where
  bridge_call-kept :
      (msg : BridgeCallMessage) (event : BridgeEvent) (s s' : State)
      → call env msg s ≡ (ok event, s')
      → P s
      → P s'
  unfolding call
  bridge_call-kept (claim_deposit claim) event s s' h p =
      let (_, config, fresh, _, _, room, e) = handle_claim_deposit-ok env s s' event claim h in
      subst P (sym e) (k.by_claim claim s config fresh room p)
  bridge_call-kept (withdraw_bridge msg) event s s' h p =
      let (_, _, _, _, _, _, e) = handle_withdraw_bridge-ok env s s' event msg h in
      subst P (sym e) (k.by_withdrawal msg _ _ s p)
  bridge_call-kept (update_helios_head update) event s s' h p =
      let (_, forward, _, _, e) = handle_update_helios_head-ok env s s' event update h in
      subst P (sym e) (k.by_head update s forward p)

  pub Step-kept : {s s' : State} → Step env s s' → P s → P s'
  Step-kept (pool_call context msg event pool h e) p =
      subst P (sym e) (k.by_pool context msg event pool _ h p)
  Step-kept (bridge_call msg event h) p = bridge_call-kept msg event _ _ h p

  pub Reach-kept : {s s' : State} → Reach env s s' → P s → P s'
  Reach-kept here p = p
  Reach-kept (next r st) p = Step-kept st (Reach-kept r p)
