-- ===== src/Circuits/Transfer.antt =====
-- crates/provers/sp1/guest-privacy/src/bin/transfer.rs: a failed assertion ends the run in an error.
use obscura_network.Prelude.{
  ℕ, ◌+◌, Bool, true, false, ◌&&◌, List, [], ◌∷◌, Bytes, ◌==◌, Bytes_Eq, length, ltb, nat_eq,
  u64_mod, Result, ok, err, ◌>>=◌, ◌>>◌, guard, if◌then◌else◌,
}
use obscura_network.Merkle.{climb}
use obscura_network.Circuits.Types.{
  NoteData, TransferWitness, TransferPublicOutputs, Panic, no_inputs, no_outputs, key_count,
  input_asset, output_asset, input_overflow, output_overflow, unbalanced, index_count, path_count,
  inclusion_failed, zero_output, hash_note, hash_nullifier,
}

-- The loop is that of `MerkleProof::verify`; the number of siblings is not looked at.
unfoldable pub verify_merkle_inclusion : (Bytes → Bytes) → Bytes → ℕ → List Bytes → Bytes → Bool
verify_merkle_inclusion sha256 leaf leaf_index siblings root =
    climb sha256 leaf_index leaf siblings == root

-- `for note in notes { assert_eq!(note.asset_id, asset_id) }`
unfoldable pub same_asset : Bytes → List NoteData → Bool
same_asset asset_id [] = true
same_asset asset_id (note ∷ notes) = note.asset_id == asset_id && same_asset asset_id notes

-- The fold of `checked_add` over the amounts.
unfoldable pub sum_loop : Panic → ℕ → List NoteData → Result Panic ℕ
sum_loop overflow acc [] = ok acc
sum_loop overflow acc (note ∷ notes) =
    let rest = sum_loop overflow (acc + note.amount) notes in
    if ltb (acc + note.amount) u64_mod then rest else err overflow

-- The loop of constraint 4, over the zipped lists.
unfoldable pub check_paths :
    (Bytes → Bytes) → Bytes → List NoteData → List ℕ → List (List Bytes) → Result Panic (Unit {0})
unfolding verify_merkle_inclusion
check_paths sha256 root [] indices paths = ok tt
check_paths sha256 root (note ∷ notes) [] paths = ok tt
check_paths sha256 root (note ∷ notes) (index ∷ indices) [] = ok tt
check_paths sha256 root (note ∷ notes) (index ∷ indices) (path ∷ paths) = do
  guard (verify_merkle_inclusion sha256 (hash_note sha256 note) index path root) inclusion_failed
  check_paths sha256 root notes indices paths

-- The loop of constraint 5, over the zipped lists.
unfoldable pub nullifiers_of : (Bytes → Bytes) → List NoteData → List Bytes → List Bytes
nullifiers_of sha256 [] keys = []
nullifiers_of sha256 (note ∷ notes) [] = []
nullifiers_of sha256 (note ∷ notes) (key ∷ keys) =
    hash_nullifier sha256 key (hash_note sha256 note) ∷ nullifiers_of sha256 notes keys

-- The loop of constraint 6.
unfoldable pub commit_outputs : (Bytes → Bytes) → List NoteData → Result Panic (List Bytes)
commit_outputs sha256 [] = ok []
commit_outputs sha256 (note ∷ notes) = do
  guard (ltb 0 note.amount) zero_output
  commitments ← commit_outputs sha256 notes
  ok (hash_note sha256 note ∷ commitments)

unfoldable pub any_note : List NoteData → Bool
any_note [] = false
any_note (note ∷ notes) = true

-- What follows the test that there is an input; `asset_id` is that of the first.
unfoldable pub transfer_checks :
    (Bytes → Bytes) → TransferWitness → Bytes → Result Panic TransferPublicOutputs
transfer_checks sha256 witness asset_id = do
  guard (any_note witness.outputs) no_outputs
  guard (nat_eq (length witness.inputs) (length witness.spending_keys)) key_count
  guard (same_asset asset_id witness.inputs) input_asset
  guard (same_asset asset_id witness.outputs) output_asset
  input_sum ← sum_loop input_overflow 0 witness.inputs
  output_sum ← sum_loop output_overflow 0 witness.outputs
  guard (nat_eq input_sum output_sum) unbalanced
  guard (nat_eq (length witness.leaf_indices) (length witness.inputs)) index_count
  guard (nat_eq (length witness.merkle_paths) (length witness.inputs)) path_count
  check_paths sha256 witness.merkle_root witness.inputs witness.leaf_indices witness.merkle_paths
  output_commitments ← commit_outputs sha256 witness.outputs
  ok (record {
    nullifiers = nullifiers_of sha256 witness.inputs witness.spending_keys;
    output_commitments = output_commitments;
    transfer_amount = input_sum;
    asset_id = asset_id;
    merkle_root = witness.merkle_root;
  })

unfoldable pub transfer_circuit :
    (Bytes → Bytes) → TransferWitness → Result Panic TransferPublicOutputs
unfolding transfer_checks
transfer_circuit sha256 witness = elim witness.inputs [
  | [] ↦ err no_inputs
  | note ∷ notes ↦ transfer_checks sha256 witness note.asset_id
]
