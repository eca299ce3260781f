-- ===== src/Runtime/Head.antt =====
-- The light client's head, and the calls that move it.
use obscura_network.Prelude.{ℕ, ◌+◌, ◌<◌, ◌≤◌, ◌≡◌, ap, some, bytes_eq_sound, unwrap_or, arith, ok}
use obscura_network.Merkle.{zero_bytes}
use obscura_network.Bridge.Types.{Env, State, UpdateHeliosHead, BridgeEvent, default_helios}
use obscura_network.Bridge.Handlers.{
  current_slot, record_withdrawal, advance_head, advances, gap_allowed, links, count_claim,
  mark_claimed, handle_update_helios_head,
}
use obscura_network.Bridge.Success.{claimed, handle_update_helios_head-ok}
use obscura_network.Runtime.{Reach}
use obscura_network.Runtime.Keeps.{IsKept, Reach-kept}

module _ (env : Env) (low : ℕ) where
  abbrev SlotFrom : State → Type 0
  SlotFrom s = low ≤ current_slot s

  SlotFrom-kept : IsKept env SlotFrom
  unfolding claimed record_withdrawal advance_head count_claim mark_claimed current_slot advances
  SlotFrom-kept = record {
    by_pool = λ context msg event pool s h p. p;
    by_claim = λ claim s config fresh room p. p;
    by_withdrawal = λ msg n id s p. p;
    by_head = λ update s forward p. ground arith;
  }

-- An accepted update goes on from the trusted root, moves the slot strictly forward, by at most the
-- configured gap unless the head was at slot 0, and makes the new root and slot the trusted ones;
-- and no later successful call moves the slot back below it.
pub update_helios_head-forward :
    (env : Env) (update : UpdateHeliosHead) (event : BridgeEvent) (s s' t : State)
    → handle_update_helios_head env update s ≡ (ok event, s')
    → Reach env s' t
    → (update.public_inputs.prev_trusted_root ≡ unwrap_or s.trusted_beacon_root zero_bytes)
      × (current_slot s < update.public_inputs.new_slot)
      × (0 < current_slot s
          → update.public_inputs.new_slot
            ≤ current_slot s + (unwrap_or s.helios_config default_helios).max_slot_gap)
      × (s'.trusted_beacon_root ≡ some update.public_inputs.new_beacon_root)
      × (current_slot s' ≡ update.public_inputs.new_slot)
      × (update.public_inputs.new_slot ≤ current_slot t)
unfolding advances gap_allowed links current_slot advance_head
update_helios_head-forward env update event s s' t h later =
    let (link, forward, gap, _, e) = handle_update_helios_head-ok env s s' event update h in
    let slot : unwrap_or s'.trusted_slot 0 ≡ update.public_inputs.new_slot =
      ap (λ (u : State). unwrap_or u.trusted_slot 0) e in
    (
      bytes_eq_sound _ _ link,
      ground arith,
      (λ pos. ground arith),
      ap (λ (u : State). u.trusted_beacon_root) e,
      slot,
      Reach-kept env (SlotFrom env update.public_inputs.new_slot)
          (SlotFrom-kept env update.public_inputs.new_slot) later (omega (arith, slot)),
    )
