-- ===== src/Runtime/Finalized.antt =====
-- The blocks that the updates of the head finalize.
use obscura_network.Prelude.{
  ℕ, ◌<◌, ◌≤◌, ◌≡◌, ap, sym, subst, drop, ◌⊎◌, inl, inr, true, Bytes, bytes_eq, bytes_eq_sound,
  unwrap_or, Bool-cases, arith, ok,
}
use obscura_network.Bridge.Types.{
  Env, State, ClaimDeposit, UpdateHeliosHead, BridgeConfig, BridgeEvent, BridgeCallMessage,
  claim_deposit, withdraw_bridge, update_helios_head,
}
use obscura_network.Bridge.Keys.{block_key}
use obscura_network.Bridge.Handlers.{
  call, current_slot, record_withdrawal, advance_head, advances, block_proven, count_claim,
  mark_claimed, handle_claim_deposit, handle_update_helios_head, genesis,
}
use obscura_network.Bridge.Success.{
  claimed, handle_claim_deposit-ok, handle_withdraw_bridge-ok, handle_update_helios_head-ok,
}
use obscura_network.Runtime.{start, Step, pool_call, bridge_call, Reach, here, next}
use obscura_network.Runtime.Keeps.{IsKept, Reach-kept}

-- The slot at which a block was proven finalized, or 0.
pub proven_slot : Env → Bytes → State → ℕ
proven_slot env block s = unwrap_or (s.finalized_eth_blocks (block_key env block)) 0

module _ (env : Env) where
  -- No block is proven at a slot beyond the head.
  record Bounded (s : State) : Type 0 where
    at_block : (key : Bytes) → unwrap_or (s.finalized_eth_blocks key) 0 ≤ current_slot s

  Bounded-head :
      (update : UpdateHeliosHead) (s : State)
      → advances update s ≡ true
      → Bounded s
      → Bounded (advance_head env update s)
  unfolding advance_head current_slot advances
  Bounded-head update s forward b = record {
    at_block = λ key.
        let old = b.at_block key in
        elim (Bool-cases (bytes_eq (block_key env update.public_inputs.execution_block_hash) key)) [
          | inl same ↦ rw same (omega arith)
          | inr other ↦ rw other (ground arith)
        ];
  }

  Bounded-kept : IsKept env Bounded
  unfolding claimed record_withdrawal count_claim mark_claimed current_slot
  Bounded-kept = record {
    by_pool = λ context msg event pool s h b. record { at_block = b.at_block };
    by_claim = λ claim s config fresh room b. record { at_block = b.at_block };
    by_withdrawal = λ msg n id s b. record { at_block = b.at_block };
    by_head = Bounded-head;
  }

  Bounded-start : (config : BridgeConfig) → Bounded (start env config)
  unfolding start genesis current_slot
  Bounded-start config = record { at_block = λ key. omega arith }

-- What a step does to the finalized blocks.
module _ (env : Env) where
  abbrev IsUpdated : State → State → Type 0
  IsUpdated s s' =
      (update : UpdateHeliosHead) × (event : BridgeEvent) × (handle_update_helios_head env update s
        ≡ (ok event, s'))
      × (s' ≡ advance_head env update s)

  bridge_call-blocks :
      (msg : BridgeCallMessage) (event : BridgeEvent) (s s' : State)
      → call env msg s ≡ (ok event, s')
      → (s'.finalized_eth_blocks ≡ s.finalized_eth_blocks) ⊎ IsUpdated s s'
  unfolding call claimed count_claim mark_claimed record_withdrawal
  bridge_call-blocks (claim_deposit claim) event s s' h =
      let (_, _, _, _, _, _, e) = handle_claim_deposit-ok env s s' event claim h in
      inl (ap (λ (u : State). u.finalized_eth_blocks) e)
  bridge_call-blocks (withdraw_bridge msg) event s s' h =
      let (_, _, _, _, _, _, e) = handle_withdraw_bridge-ok env s s' event msg h in
      inl (ap (λ (u : State). u.finalized_eth_blocks) e)
  bridge_call-blocks (update_helios_head update) event s s' h =
      let (_, _, _, _, e) = handle_update_helios_head-ok env s s' event update h in
      inr (update, event, h, e)

  Step-blocks :
      {s s' : State}
      → Step env s s'
      → (s'.finalized_eth_blocks ≡ s.finalized_eth_blocks) ⊎ IsUpdated s s'
  Step-blocks (pool_call context msg event pool h e) =
      inl (ap (λ (u : State). u.finalized_eth_blocks) e)
  Step-blocks (bridge_call msg event h) = bridge_call-blocks msg event _ _ h

-- An update of the head that was accepted on the way from `first` to `s`, for the block with this
-- key and at this slot.
pub record Finality (env : Env) (first s : State) (key : Bytes) (slot : ℕ) : Type 0 where
  pub update : UpdateHeliosHead
  pub event : BridgeEvent
  pub before : State
  pub after : State
  pub reached : Reach env first before
  pub accepted : handle_update_helios_head env update before ≡ (ok event, after)
  pub later : Reach env after s
  pub block : block_key env update.public_inputs.execution_block_hash ≡ key
  pub at_slot : update.public_inputs.new_slot ≡ slot

module _ (env : Env) (config : BridgeConfig) (key : Bytes) where
  abbrev recorded : State → ℕ
  recorded s = unwrap_or (s.finalized_eth_blocks key) 0

  abbrev Traced : State → Type 0
  Traced s = Finality env (start env config) s key (recorded s)

  Finality-next :
      {s s' : State} {slot : ℕ}
      → Step env s s'
      → Finality env (start env config) s key slot
      → Finality env (start env config) s' key slot
  Finality-next st f = record {
    update = f.update;
    event = f.event;
    before = f.before;
    after = f.after;
    reached = f.reached;
    accepted = f.accepted;
    later = next f.later st;
    block = f.block;
    at_slot = f.at_slot;
  }

  kept-Traced :
      {s s' : State}
      → Step env s s'
      → recorded s' ≡ recorded s
      → (0 < recorded s → Traced s)
      → 0 < recorded s'
      → Traced s'
  kept-Traced {s} {s'} st same old h =
      subst (Finality env (start env config) s' key) (sym same)
        (Finality-next st (old (omega arith)))

  updated-Traced :
      {s s' : State}
      → Reach env (start env config) s
      → Step env s s'
      → IsUpdated env s s'
      → (0 < recorded s → Traced s)
      → 0 < recorded s'
      → Traced s'
  unfolding advance_head
  updated-Traced {s} {s'} r st (update, event, h, e) old pos =
      let block = block_key env update.public_inputs.execution_block_hash in
      let value : recorded s' ≡ recorded (advance_head env update s) = ap recorded e in
      elim (Bool-cases (bytes_eq block key)) [
        | inl same ↦ record {
          update = update;
          event = event;
          before = s;
          after = s';
          reached = r;
          accepted = h;
          later = here;
          block = bytes_eq_sound block key same;
          at_slot = sym (rw same at value);
        }
        | inr other ↦ kept-Traced st (rw other at value) old pos
      ]

  Reach-Traced : {s : State} → Reach env (start env config) s → 0 < recorded s → Traced s
  unfolding start genesis
  Reach-Traced here pos = absurd (omega arith)
  Reach-Traced (next r st) pos = elim (Step-blocks env st) [
    | inl same ↦ kept-Traced st (ap (λ m. unwrap_or (m key) 0) same) (Reach-Traced r) pos
    | inr updated ↦ updated-Traced r st updated (Reach-Traced r) pos
  ]

-- After any successful calls from genesis, for a hex encoding that is injective: if the head is
-- beyond slot 0, a deposit is claimed only from a block that an update of the head finalized: the
-- update was accepted in a state on the way, names this block, and has the slot that is recorded
-- for it, which is from 1 to the head.
pub claim_finalized :
    (env : Env) (config : BridgeConfig)
    (injective : (x y : Bytes) → env.hex_encode x ≡ env.hex_encode y → x ≡ y) (claim : ClaimDeposit)
    (event : BridgeEvent) (s s' : State)
    → Reach env (start env config) s
    → handle_claim_deposit env claim s ≡ (ok event, s')
    → 0 < current_slot s
    → (f : Finality env
        (start env config)
        s
        (block_key env claim.public_inputs.eth_block_hash)
        (proven_slot env claim.public_inputs.eth_block_hash s))
      × (f.update.public_inputs.execution_block_hash ≡ claim.public_inputs.eth_block_hash)
      × (0 < f.update.public_inputs.new_slot)
      × (f.update.public_inputs.new_slot ≤ current_slot s)
unfolding proven_slot block_proven block_key
claim_finalized env config injective claim event s s' r h active =
    let (_, _, _, proven, _, _, _) = handle_claim_deposit-ok env s s' event claim h in
    let b = Reach-kept env (Bounded env) (Bounded-kept env) r (Bounded-start env config) in
    let key = block_key env claim.public_inputs.eth_block_hash in
    let pos : 0 < unwrap_or (s.finalized_eth_blocks key) 0 = ground arith in
    let f = Reach-Traced env config key r pos in
    (
      f,
      injective _ _ (ap (drop 2) f.block),
      omega (arith, f.at_slot, pos),
      omega (arith, f.at_slot, b.at_block key),
    )
