-- ===== src/Privacy/Handlers.antt =====
-- crates/privacy/src/lib.rs: the handlers of the four calls. Each returns the event that it emits.
use obscura_network.Prelude.{
  ℕ, ◌+◌, ◌%◌, ◌^◌, Bool, true, false, ◌&&◌, ◌||◌, not, Option, none, some, List, [], ◌∷◌, ◌++◌,
  Bytes, insert, ◌==◌, Bytes_Eq, unwrap_or, ltb, length, get_elem?, wrapping_add, saturating_sub,
  if◌then◌else◌,
}
use obscura_network.Prelude.Exec.{Exec, ◌>>=◌, ◌>>◌, pure, lift, require, modify}
use obscura_network.Merkle.{zero_bytes}
use obscura_network.Privacy.Types.{
  Env, Error, unknown_root, stale_sanctions_root, sanctions_proof_too_old, already_spent,
  not_oracle, from_note, ShieldMessage, TransferMessage, UnshieldMessage,
  UpdateSanctionsRootMessage, CallMessage, shield, transfer, unshield, update_sanctions_root,
  PrivacyEvent, shielded, private_transfer, unshielded, sanctions_root_updated,
  sanctions_proof_max_age_secs,
}
use obscura_network.Privacy.Zk.{
  is_empty, verify_transfer_proof, verify_unshield_proof, verify_sanctions_proof,
}
use obscura_network.Privacy.State.{State, insert_commitment, is_known_root}

-- What a call knows of its transaction and of the world: the sender, and the system clock.
pub record Context : Type 0 where
  pub sender : Bytes
  pub now_secs : ℕ

unfoldable pub push_commitment : Bytes → State → State
push_commitment commitment s = record s { commitments = s.commitments ++ commitment ∷ [] }

-- `format!("0x{}", hex::encode(..))`
note_key : Env → Bytes → Bytes
note_key env commitment = b'0' ∷ b'x' ∷ env.hex_encode commitment

-- `if !encrypted.is_empty() { self.encrypted_notes.set(&key, encrypted) }`
unfoldable pub store_note : Env → Bytes → Bytes → State → State
unfolding is_empty note_key
store_note env commitment encrypted s =
    if is_empty encrypted
    then s
    else record s { encrypted_notes = insert s.encrypted_notes (note_key env commitment) encrypted }

unfoldable pub add_supply : Bytes → ℕ → State → State
add_supply asset_id amount s = record s {
  shielded_supply =
      insert s.shielded_supply asset_id
        (wrapping_add (unwrap_or (s.shielded_supply asset_id) 0) amount);
}

unfoldable pub handle_shield : Env → ShieldMessage → Exec Error State PrivacyEvent
handle_shield env msg = do
  commitment ← lift (from_note env msg.note)
  modify (push_commitment commitment)
  insert_commitment env commitment
  modify (store_note env commitment msg.encrypted_note)
  modify (add_supply msg.note.asset_id msg.note.amount)
  pure (shielded commitment)

unfoldable pub is_spent : Bytes → State → Bool
is_spent nullifier s = unwrap_or (s.nullifiers nullifier) false

-- The loop that looks for a nullifier already spent.
unfoldable pub any_spent : List Bytes → State → Bool
unfolding is_spent
any_spent [] s = false
any_spent (nullifier ∷ rest) s = is_spent nullifier s || any_spent rest s

unfoldable pub mark_spent : Bytes → State → State
mark_spent nullifier s = record s { nullifiers = insert s.nullifiers nullifier true }

-- The loop that marks nullifiers as spent.
unfoldable pub mark_all : List Bytes → State → State
unfolding mark_spent
mark_all [] s = s
mark_all (nullifier ∷ rest) s = mark_all rest (mark_spent nullifier s)

-- `if let Some(enc_bytes) = msg.encrypted_outputs.get(i)`
unfoldable pub store_output : Env → Bytes → Option Bytes → State → State
unfolding store_note
store_output env commitment none s = s
store_output env commitment (some encrypted) s = store_note env commitment encrypted s

-- `for (i, commitment) in msg.output_commitments.iter().enumerate()`, from index `i` on
unfoldable pub add_outputs : Env → List Bytes → ℕ → List Bytes → Exec Error State (Unit {0})
add_outputs env encrypted_outputs i [] = pure tt
add_outputs env encrypted_outputs i (commitment ∷ rest) = do
  modify (push_commitment commitment)
  insert_commitment env commitment
  modify (store_output env commitment (get_elem? encrypted_outputs i))
  add_outputs env encrypted_outputs (i + 1) rest

unfoldable pub count_transfer : ℕ → State → State
count_transfer amount s = record s {
  compliance_tx_count = some (wrapping_add (unwrap_or s.compliance_tx_count 0) 1);
  compliance_total_volume = some (wrapping_add (unwrap_or s.compliance_total_volume 0) amount);
}

-- The claimed root is the zero placeholder, or in the history.
unfoldable pub root_allowed : TransferMessage → State → Bool
root_allowed msg s =
    msg.public_inputs.merkle_root == zero_bytes || is_known_root msg.public_inputs.merkle_root s

-- No sanctions root is set on chain, or the proof uses the one that is.
unfoldable pub sanctions_current : TransferMessage → State → Bool
sanctions_current msg s =
    let current_root = unwrap_or s.sanctions_root zero_bytes in
    current_root == zero_bytes || msg.sanctions_public_inputs.sanctions_root == current_root

-- The proof has no time stamp, or one that is recent enough.
unfoldable pub sanctions_fresh : ℕ → TransferMessage → State → Bool
sanctions_fresh now_secs msg s =
    let timestamp = msg.sanctions_public_inputs.proof_timestamp in
    not (ltb 0 timestamp && ltb sanctions_proof_max_age_secs (saturating_sub now_secs timestamp))

unfoldable pub handle_transfer : Env → Context → TransferMessage → Exec Error State PrivacyEvent
handle_transfer env context msg = do
  require (root_allowed msg) unknown_root
  lift (verify_transfer_proof env msg.proof msg.public_inputs)
  require (sanctions_current msg) stale_sanctions_root
  require (sanctions_fresh context.now_secs msg) sanctions_proof_too_old
  lift (verify_sanctions_proof env msg.sanctions_proof msg.sanctions_public_inputs)
  require (λ s. not (any_spent msg.nullifiers s)) already_spent
  modify (mark_all msg.nullifiers)
  add_outputs env msg.encrypted_outputs 0 msg.output_commitments
  modify (count_transfer msg.public_inputs.transfer_amount)
  pure (private_transfer (length msg.nullifiers % 2 ^ 32) (length msg.output_commitments % 2 ^ 32))

-- No oracle is set, or the sender is the oracle.
unfoldable pub may_update_root : Bytes → State → Bool
unfolding is_empty
may_update_root sender s =
    let oracle = unwrap_or s.sanctions_oracle [] in is_empty oracle || sender == oracle

unfoldable pub handle_update_sanctions_root :
    Context → UpdateSanctionsRootMessage → Exec Error State PrivacyEvent
handle_update_sanctions_root context msg = do
  require (may_update_root context.sender) not_oracle
  modify (λ s. record s { sanctions_root = some msg.new_root })
  pure (sanctions_root_updated msg.new_root)

unfoldable pub remove_supply : Bytes → ℕ → State → State
remove_supply asset_id amount s = record s {
  shielded_supply =
      insert s.shielded_supply asset_id
        (saturating_sub (unwrap_or (s.shielded_supply asset_id) 0) amount);
}

unfoldable pub handle_unshield : Env → UnshieldMessage → Exec Error State PrivacyEvent
handle_unshield env msg = do
  lift (verify_unshield_proof env msg.proof msg.public_inputs)
  require (λ s. not (is_spent msg.nullifier s)) already_spent
  modify (mark_spent msg.nullifier)
  modify (remove_supply msg.public_inputs.asset_id msg.public_inputs.amount)
  pure (unshielded msg.nullifier msg.public_inputs.amount)

unfoldable pub call : Env → Context → CallMessage → Exec Error State PrivacyEvent
call env context (shield msg) = handle_shield env msg
call env context (transfer msg) = handle_transfer env context msg
call env context (unshield msg) = handle_unshield env msg
call env context (update_sanctions_root msg) = handle_update_sanctions_root context msg
