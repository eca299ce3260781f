-- ===== src/Tests/Pool.antt =====
-- Calls of the shielded pool.
use obscura_network.Prelude.{
  ℕ, ◌+◌, ◌≤◌, ◌<◌, ◌≡◌, ◌≢◌, ◌↔◌, ◌⊎◌, refl, true, some, List, [], ◌∷◌, ◌++◌, Bytes, take, ok,
  arith, bytes_eq,
}
use obscura_network.Merkle.{zero_bytes, roots_history_size}
use obscura_network.Merkle.Tree.{tree_root}
use obscura_network.Merkle.Inclusion.{Collision}
use obscura_network.Privacy.Types.{
  from_note, note_bytes, to_le_bytes, shield, transfer, unshield, shielded, unshielded,
  private_transfer, sanctions_proof_max_age_secs,
}
use obscura_network.Privacy.Zk.{
  verify_transfer_proof, verify_unshield_proof, verify_sanctions_proof,
}
use obscura_network.Privacy.State.{State, genesis, has_room, insert_commitment}
use obscura_network.Privacy.Pool.{IsPool-genesis}
use obscura_network.Privacy.Spend.{Spends, call-is_spent_iff}
use obscura_network.Privacy.Effects.{Adds, call-commitments, supply, supply_after, call-supply}
use obscura_network.Privacy.Notes.{IsSized, from_note-injective}
use obscura_network.Privacy.Accepted.{accepted-checks}
use obscura_network.Privacy.Duplicates.{duplicate_accepted}
use obscura_network.Privacy.Handlers.{
  call, add_outputs, is_spent, any_spent, root_allowed, sanctions_current, sanctions_fresh,
  handle_shield, handle_transfer, handle_unshield, push_commitment,
}
use obscura_network.Tests.Data.{
  pool_env, alice, pool, nullifier, dollar, note, salted_note, shield_note, unshield_30,
  transfer_20, note_commitment,
}

-- The pool after the unshield, and after the shield.
abbrev drained : State
drained = (call pool_env alice (unshield unshield_30) pool).1

abbrev stocked : State
stocked = (call pool_env alice (shield shield_note) pool).1

abbrev moved : State
moved = (call pool_env alice (transfer transfer_20) pool).1

drained_lem :
    call pool_env alice (unshield unshield_30) pool ≡ (ok (unshielded nullifier 30), drained)
unfolding call handle_unshield is_spent verify_unshield_proof bytes_eq genesis
drained_lem = refl

stocked_lem :
    call pool_env alice (shield shield_note) pool ≡ (ok (shielded note_commitment), stocked)
unfolding call handle_shield from_note note_bytes to_le_bytes insert_commitment has_room genesis
    push_commitment
stocked_lem = refl

moved_lem : call pool_env alice (transfer transfer_20) pool ≡ (ok (private_transfer 1 0), moved)
unfolding call handle_transfer root_allowed sanctions_current sanctions_fresh any_spent
    verify_transfer_proof verify_sanctions_proof bytes_eq genesis add_outputs
moved_lem = refl

call-is_spent_iff_example :
    (is_spent nullifier drained ≡ true)
    ↔ (Spends (unshield unshield_30) nullifier ⊎ (is_spent nullifier pool ≡ true))
call-is_spent_iff_example =
    call-is_spent_iff pool_env alice (unshield unshield_30) (unshielded nullifier 30) pool drained
      nullifier drained_lem

call-commitments_example :
    (l : List Bytes) × Adds pool_env (shield shield_note) l
    × (stocked.commitments ≡ pool.commitments ++ l)
call-commitments_example =
    call-commitments pool_env alice (shield shield_note) (shielded note_commitment) pool stocked
      stocked_lem

call-supply_example :
    supply dollar stocked ≡ supply_after dollar (shield shield_note) (supply dollar pool)
call-supply_example =
    call-supply pool_env alice (shield shield_note) (shielded note_commitment) pool stocked dollar
      stocked_lem

note-IsSized : IsSized note
note-IsSized = record { amount = omega arith; asset_id = refl; salt = refl }

salted_note-IsSized : IsSized salted_note
salted_note-IsSized = record { amount = omega arith; asset_id = refl; salt = refl }

from_note-injective_example : (note ≡ salted_note) ⊎ Collision pool_env.sha256
unfolding from_note note_bytes to_le_bytes
from_note-injective_example =
    from_note-injective pool_env note salted_note note_commitment note-IsSized salted_note-IsSized
      refl refl

transferred_lem :
    handle_transfer pool_env alice transfer_20 pool ≡ (ok (private_transfer 1 0), moved)
unfolding call handle_transfer root_allowed sanctions_current sanctions_fresh any_spent
    verify_transfer_proof verify_sanctions_proof bytes_eq genesis add_outputs
transferred_lem = refl

accepted-checks_example :
    ((transfer_20.public_inputs.merkle_root ≡ zero_bytes)
      ⊎ ((k : ℕ) × (k < 0)
          × (0 ≤ k + roots_history_size)
          × (transfer_20.public_inputs.merkle_root ≡ tree_root pool_env.sha256 (take (k + 1) []))))
    × ((root : Bytes)
        → pool.sanctions_root ≡ some root
        → root ≢ zero_bytes
        → transfer_20.sanctions_public_inputs.sanctions_root ≡ root)
    × (0 < transfer_20.sanctions_public_inputs.proof_timestamp
        → 1000 ≤ transfer_20.sanctions_public_inputs.proof_timestamp + sanctions_proof_max_age_secs)
unfolding genesis
accepted-checks_example =
    accepted-checks pool_env alice transfer_20 (private_transfer 1 0) pool moved
      (IsPool-genesis pool_env) transferred_lem

duplicate_accepted_example :
    handle_transfer pool_env alice
      (record transfer_20 { nullifiers = nullifier ∷ nullifier ∷ [] })
      pool
    ≡ (ok (private_transfer 2 0), moved)
duplicate_accepted_example =
    duplicate_accepted pool_env alice transfer_20 pool moved (private_transfer 1 0) nullifier []
      transferred_lem
