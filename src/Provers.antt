-- ===== src/Provers.antt =====
-- crates/privacy/src/sp1_prover.rs: what the host gives to the programs of guest-privacy, and what
-- it gets back. `setup` and `prove` stand for the SP1 SDK, with the environment that it reads.
pub mod Notes
pub mod Accepted
use obscura_network.Prelude.{
  ℕ, ◌-◌, Option, none, some, List, [], ◌∷◌, ◌++◌, Bytes, map, length, take, replicate, nat_eq, not,
  Result, ok, err, guard, ◌>>=◌, ◌>>◌,
}
use obscura_network.Prelude.Exec
use obscura_network.Prelude.Exec.{Exec, lift}
use obscura_network.Privacy.Types.{Note}
use obscura_network.Circuits.Types.{NoteData, TransferWitness, UnshieldWitness, ComplianceWitness}
use obscura_network.Sanctions.Circuit.{SanctionsWitness}

-- `pubkey[..len].copy_from_slice(..)` on 32 zeros.
unfoldable pub note_to_data : Note → NoteData
note_to_data note = record {
  amount = note.amount;
  asset_id = note.asset_id;
  owner_pubkey = take 32 note.owner_pubkey ++ replicate (32 - length note.owner_pubkey) 0;
  salt = note.salt;
}

-- The programs, and what is written for each.
pub data Stdin : Type 0 where
  transfer : TransferWitness → Stdin
  unshield : UnshieldWitness → Stdin
  compliance : ComplianceWitness → Stdin
  sanctions : SanctionsWitness → Stdin

pub data ProverError : Type 0 where
  index_length path_length no_amounts setup_failed prove_failed : ProverError

-- `setup` is for the program that the input belongs to.
pub record Sdk : Type 1 where
  pub World : Type 0
  pub Key : Type 0
  pub setup : Stdin → World → Option Key × World
  pub prove : Key → Stdin → World → Option Bytes × World

abbrev or_error {ℓ κ} :
    {A : Type ℓ} {W : Type κ} → ProverError → Option A × W → Result ProverError A × W
or_error e (none, w) = (err e, w)
or_error e (some a, w) = (ok a, w)

-- The checks of `prove_transfer` and the witness that it makes.
unfoldable pub transfer_witness :
    List Bytes
    → List Note
    → List Note
    → Bytes
    → List ℕ
    → List (List Bytes)
    → Result ProverError TransferWitness
transfer_witness spending_keys input_notes output_notes merkle_root leaf_indices merkle_paths = do
  guard (nat_eq (length leaf_indices) (length input_notes)) index_length
  guard (nat_eq (length merkle_paths) (length input_notes)) path_length
  ok (record {
    spending_keys = spending_keys;
    inputs = map note_to_data input_notes;
    outputs = map note_to_data output_notes;
    merkle_root = merkle_root;
    leaf_indices = leaf_indices;
    merkle_paths = merkle_paths;
  })

unfoldable pub unshield_witness : Bytes → Note → UnshieldWitness
unshield_witness spending_key note = record {
  spending_key = spending_key;
  note = note_to_data note;
}

module _ (sdk : Sdk) where
  unfoldable pub run : Stdin → Exec ProverError sdk.World Bytes
  run stdin =
      Exec.◌>>=◌ (λ w. or_error setup_failed (sdk.setup stdin w))
        λ pk w. or_error prove_failed (sdk.prove pk stdin w)

  unfoldable pub prove_transfer :
      List Bytes
      → List Note
      → List Note
      → Bytes
      → List ℕ
      → List (List Bytes)
      → Exec ProverError sdk.World Bytes
  prove_transfer spending_keys input_notes output_notes merkle_root leaf_indices merkle_paths =
      Exec.◌>>=◌
        (lift (
          transfer_witness spending_keys input_notes output_notes merkle_root leaf_indices
            merkle_paths))
        λ witness. run (transfer witness)

  unfoldable pub prove_unshield : Bytes → Note → Exec ProverError sdk.World Bytes
  prove_unshield spending_key note = run (unshield (unshield_witness spending_key note))

  unfoldable pub prove_compliance : List ℕ → ℕ → Exec ProverError sdk.World Bytes
  prove_compliance amounts regulatory_limit =
      Exec.◌>>◌ (lift (guard (not (nat_eq (length amounts) 0)) no_amounts))
        (run (compliance (record { amounts = amounts; regulatory_limit = regulatory_limit })))

  unfoldable pub prove_sanctions : SanctionsWitness → Exec ProverError sdk.World Bytes
  prove_sanctions witness = run (sanctions witness)
