-- ===== src/Tests/Circuit.antt =====
-- Runs of the programs of the pool.
use obscura_network.Prelude.{
  false, leb, ℕ, ◌<◌, ◌≡◌, ◌↔◌, refl, List, [], ◌∷◌, Bytes, length, replicate, map, u64_mod, ok,
  bytes_eq, true, ◌⊎◌, bytes_eq_iff, arith,
}
use obscura_network.Merkle.{climb, tree_depth}
use obscura_network.Circuits.Types.{
  NoteData, TransferWitness, TransferPublicOutputs, UnshieldWitness, UnshieldPublicOutputs,
  hash_note, hash_nullifier,
}
use obscura_network.Circuits.Transfer.{
  verify_merkle_inclusion, transfer_circuit, nullifiers_of, any_note, same_asset, sum_loop,
  check_paths, commit_outputs,
}
use obscura_network.Circuits.Balance.{total, transfer_circuit_balanced}
use obscura_network.Circuits.Keys.{transfer_circuit_any_keys}
use obscura_network.Circuits.Compliance.{compliance_circuit, volume, compliance_circuit_iff}
use obscura_network.Circuits.Types.{ComplianceWitness, CompliancePublicOutputs}
use obscura_network.Circuits.Inclusion.{AreLeaves, transfer_circuit-AreLeaves}
use obscura_network.Merkle.Tree.{tree_root, leaves_of}
use obscura_network.Merkle.Inclusion.{
  All32, Collision, siblings_of, All32-siblings_of, leaves_of-sized,
}
use obscura_network.Merkle.Verify.{length-siblings_of, verify-length, verify_complete}
use obscura_network.Tests.Data.{toy_hash, length-fit, dollar}

abbrev note_of : ℕ → NoteData
note_of amount = record {
  amount = amount;
  asset_id = dollar;
  owner_pubkey = replicate 32 1;
  salt = replicate 32 2;
}

-- One note of 50 into two of 30 and 20, with the one leaf as the tree.
abbrev pub witness : TransferWitness
witness = record {
  spending_keys = replicate 32 5 ∷ [];
  inputs = note_of 50 ∷ [];
  outputs = note_of 30 ∷ note_of 20 ∷ [];
  merkle_root = hash_note toy_hash (note_of 50);
  leaf_indices = 0 ∷ [];
  merkle_paths = [] ∷ [];
}

abbrev pub made_public : List Bytes → TransferPublicOutputs
made_public keys = record {
  nullifiers = nullifiers_of toy_hash (note_of 50 ∷ []) keys;
  output_commitments = hash_note toy_hash (note_of 30) ∷ hash_note toy_hash (note_of 20) ∷ [];
  transfer_amount = 50;
  asset_id = dollar;
  merkle_root = hash_note toy_hash (note_of 50);
}

pub witness_lem : transfer_circuit toy_hash witness ≡ ok (made_public witness.spending_keys)
unfolding transfer_circuit any_note same_asset bytes_eq sum_loop check_paths climb hash_note
    commit_outputs
witness_lem = refl

transfer_circuit_balanced_example :
    (total witness.outputs ≡ total witness.inputs)
    × (50 ≡ total witness.inputs)
    × (total witness.inputs < u64_mod)
    × ((made_public witness.spending_keys).output_commitments
        ≡ map (hash_note toy_hash) witness.outputs)
    × (length (made_public witness.spending_keys).nullifiers ≡ 1)
    × ((made_public witness.spending_keys).merkle_root ≡ witness.merkle_root)
transfer_circuit_balanced_example =
    transfer_circuit_balanced toy_hash witness (made_public witness.spending_keys) witness_lem

transfer_circuit_any_keys_example :
    transfer_circuit toy_hash (record witness { spending_keys = replicate 32 6 ∷ [] })
    ≡ ok (made_public (replicate 32 6 ∷ []))
transfer_circuit_any_keys_example =
    transfer_circuit_any_keys toy_hash witness (made_public witness.spending_keys)
      (replicate 32 6 ∷ []) refl witness_lem

abbrev unshield_witness : UnshieldWitness
unshield_witness = record { spending_key = replicate 32 5; note = note_of 50 }

abbrev unshielded_note : UnshieldPublicOutputs
unshielded_note = record {
  nullifier =
      hash_nullifier toy_hash unshield_witness.spending_key
        (hash_note toy_hash unshield_witness.note);
  amount = 50;
  asset_id = dollar;
}

-- The same transfer, with the note in a tree of the full depth.
abbrev leaves : List Bytes
leaves = hash_note toy_hash (note_of 50) ∷ []

abbrev path : List Bytes
path = siblings_of toy_hash (leaves_of leaves) tree_depth 0 0

abbrev planted : TransferWitness
planted = record witness { merkle_root = tree_root toy_hash leaves; merkle_paths = path ∷ [] }

included_lem :
    verify_merkle_inclusion toy_hash
      (hash_note toy_hash (note_of 50))
      0
      path
      (tree_root toy_hash leaves)
    ≡ true
unfolding verify_merkle_inclusion
included_lem =
    (bytes_eq_iff _ _).1
      (verify-length toy_hash
        (record { leaf_index = 0; siblings = path; root = tree_root toy_hash leaves })
        (hash_note toy_hash (note_of 50)) (verify_complete toy_hash leaves 0 (omega arith))).1

planted_lem :
    transfer_circuit toy_hash planted
    ≡ ok (record (made_public planted.spending_keys) { merkle_root = tree_root toy_hash leaves })
unfolding transfer_circuit any_note same_asset bytes_eq sum_loop check_paths commit_outputs
planted_lem = rw included_lem

leaf-sized : All32 leaves
unfolding hash_note
leaf-sized = (refl, tt)

transfer_circuit-AreLeaves_example :
    AreLeaves toy_hash leaves planted.inputs planted.leaf_indices ⊎ Collision toy_hash
transfer_circuit-AreLeaves_example =
    transfer_circuit-AreLeaves toy_hash (length-fit 32) leaves planted
      (record (made_public planted.spending_keys) { merkle_root = tree_root toy_hash leaves })
      leaf-sized
      (
        length-siblings_of toy_hash (leaves_of leaves) tree_depth 0 0,
        All32-siblings_of toy_hash (length-fit 32) (leaves_of leaves)
            (leaves_of-sized leaves leaf-sized) tree_depth 0 0,
        tt,
      )
      refl planted_lem

abbrev report : ComplianceWitness
report = record { amounts = 4 ∷ 5 ∷ []; regulatory_limit = 8 }

abbrev over_limit : CompliancePublicOutputs
over_limit = record { total_volume = 9; regulatory_limit = 8; within_limit = false; tx_count = 2 }

compliance_circuit_iff_example : (compliance_circuit report ≡ ok over_limit) ↔ (
    (volume report.amounts < u64_mod)
    × (over_limit ≡ record over_limit {
      total_volume = volume report.amounts;
      within_limit = leb (volume report.amounts) 8;
    }))
compliance_circuit_iff_example = compliance_circuit_iff report over_limit
