-- ===== src/Privacy/Success.antt =====
-- When a call succeeds, and the state that it leaves then.
use obscura_network.Prelude.{◌≡◌, inl, inr, true, false, some, Bytes, arith, ok, Result-cases}
use obscura_network.Privacy.Types.{
  Env, from_note, ShieldMessage, TransferMessage, UnshieldMessage, UpdateSanctionsRootMessage,
  PrivacyEvent, shielded, unshielded, sanctions_root_updated,
}
use obscura_network.Privacy.Zk.{
  verify_transfer_proof, verify_unshield_proof, verify_sanctions_proof,
}
use obscura_network.Privacy.State.{State, insert_commitment, inserted, has_room}
use obscura_network.Privacy.Handlers.{
  Context, push_commitment, store_note, add_supply, remove_supply, handle_shield, is_spent,
  any_spent, mark_spent, mark_all, add_outputs, count_transfer, root_allowed, sanctions_current,
  sanctions_fresh, handle_transfer, may_update_root, handle_update_sanctions_root, handle_unshield,
}

-- The state after the commitment of a new note is pushed and inserted.
unfoldable pub with_leaf : Env → Bytes → State → State
with_leaf env c s = inserted env c (push_commitment c s)

module _ (env : Env) (s s' : State) (event : PrivacyEvent) where
  pub handle_shield-ok :
      (msg : ShieldMessage)
      → handle_shield env msg s ≡ (ok event, s')
      → (c : Bytes) × (from_note env msg.note ≡ ok c)
        × (has_room s ≡ true)
        × (event ≡ shielded c)
        × (s'
            ≡ add_supply msg.note.asset_id msg.note.amount
                (store_note env c msg.encrypted_note (with_leaf env c s)))
  unfolding handle_shield insert_commitment with_leaf push_commitment has_room
  handle_shield-ok msg h = elim (Result-cases (from_note env msg.note)) [
    | inl (c, e) ↦ (c, e, ground arith, ground arith, ground arith)
    | inr (x, e) ↦ absurd (ground arith)
  ]

  pub handle_unshield-ok :
      (msg : UnshieldMessage)
      → handle_unshield env msg s ≡ (ok event, s')
      → (verify_unshield_proof env msg.proof msg.public_inputs ≡ ok tt)
        × (is_spent msg.nullifier s ≡ false)
        × (event ≡ unshielded msg.nullifier msg.public_inputs.amount)
        × (s'
            ≡ remove_supply msg.public_inputs.asset_id msg.public_inputs.amount
                (mark_spent msg.nullifier s))
  unfolding handle_unshield
  handle_unshield-ok msg h = ground arith

  pub handle_update_sanctions_root-ok :
      (context : Context) (msg : UpdateSanctionsRootMessage)
      → handle_update_sanctions_root context msg s ≡ (ok event, s')
      → (may_update_root context.sender s ≡ true)
        × (event ≡ sanctions_root_updated msg.new_root)
        × (s' ≡ record s { sanctions_root = some msg.new_root })
  unfolding handle_update_sanctions_root
  handle_update_sanctions_root-ok context msg h = ground arith

  -- Every check of a transfer that was accepted held in the state before it.
  pub handle_transfer-ok :
      (context : Context) (msg : TransferMessage)
      → handle_transfer env context msg s ≡ (ok event, s')
      → (root_allowed msg s ≡ true)
        × (verify_transfer_proof env msg.proof msg.public_inputs ≡ ok tt)
        × (sanctions_current msg s ≡ true)
        × (sanctions_fresh context.now_secs msg s ≡ true)
        × (verify_sanctions_proof env msg.sanctions_proof msg.sanctions_public_inputs ≡ ok tt)
        × (any_spent msg.nullifiers s ≡ false)
        × ((t : State) × (add_outputs env msg.encrypted_outputs 0 msg.output_commitments
                (mark_all msg.nullifiers s)
              ≡ (ok tt, t))
            × (s' ≡ count_transfer msg.public_inputs.transfer_amount t))
  unfolding handle_transfer
  handle_transfer-ok context msg h = (
    ground arith,
    ground arith,
    ground arith,
    ground arith,
    ground arith,
    ground arith,
    (
      (add_outputs env msg.encrypted_outputs 0 msg.output_commitments
          (mark_all msg.nullifiers s)).1,
      ground arith,
      ground arith,
    ),
  )
