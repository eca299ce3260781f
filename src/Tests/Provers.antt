-- ===== src/Tests/Provers.antt =====
-- A transfer of the one note of a pool, as the host hands it to the program.
use obscura_network.Prelude.{ℕ, ◌≡◌, refl, [], ◌∷◌, List, Bytes, replicate, map, ok, arith}
use obscura_network.Merkle.Tree.{tree_root}
use obscura_network.Merkle.Paths.{build_proof_paths-verify}
use obscura_network.Privacy.Types.{Note, note_bytes, from_note}
use obscura_network.Circuits.Types.{TransferWitness}
use obscura_network.Circuits.Transfer.{transfer_circuit}
use obscura_network.Circuits.Balance.{total}
use obscura_network.Provers.{note_to_data, transfer_witness}
use obscura_network.Provers.Notes.{no_notes, one_note, nullifiers}
use obscura_network.Provers.Accepted.{none_at, one_at, transfer_accepted}
use obscura_network.Tests.Data.{toy_hash, pool_env, dollar}

abbrev note_of : ℕ → Note
note_of amount = record {
  amount = amount;
  asset_id = dollar;
  owner_pubkey = replicate 32 1;
  salt = replicate 32 2;
}

abbrev commitment : ℕ → Bytes
commitment amount = toy_hash (note_bytes (note_of amount))

abbrev pool : List Bytes
pool = commitment 50 ∷ []

abbrev key : Bytes
key = replicate 32 5

transfer_accepted_example :
    (path : List Bytes) × ((w : TransferWitness) × (transfer_witness
          (key ∷ [])
          (note_of 50 ∷ [])
          (note_of 30 ∷ note_of 20 ∷ [])
          (tree_root toy_hash pool)
          (0 ∷ [])
          (path ∷ [])
        ≡ ok w)
      × (transfer_circuit toy_hash w
          ≡ ok (record {
            nullifiers = nullifiers pool_env (key ∷ []) (commitment 50 ∷ []);
            output_commitments = commitment 30 ∷ commitment 20 ∷ [];
            transfer_amount = total (map note_to_data (note_of 50 ∷ []));
            asset_id = dollar;
            merkle_root = tree_root toy_hash pool;
          })))
unfolding from_note total note_to_data
transfer_accepted_example =
    let (paths, path, built, at, _) =
      build_proof_paths-verify toy_hash pool 0 (omega arith) (omega arith) in
    (
      path,
      transfer_accepted pool_env dollar pool paths (key ∷ []) (note_of 50) [] (commitment 50 ∷ [])
          (note_of 30) (note_of 20 ∷ []) (commitment 30 ∷ commitment 20 ∷ []) (0 ∷ []) (path ∷ [])
          (omega arith) built (one_note (note_of 50) (commitment 50) [] [] refl refl no_notes)
          (one_at 0 path [] [] [] (omega arith) at none_at)
          (one_note (note_of 30) (commitment 30) (note_of 20 ∷ []) (commitment 20 ∷ []) refl refl
            (one_note (note_of 20) (commitment 20) [] [] refl refl no_notes))
          refl refl (omega arith),
    )
