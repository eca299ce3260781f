-- ===== src/Circuits/Types.antt =====
-- crates/provers/sp1/guest-privacy/src/types.rs, and the hashes that its programs share.
use obscura_network.Prelude.{ℕ, Bool, List, Bytes, ◌++◌}
use obscura_network.Privacy.Types.{to_le_bytes}

pub record NoteData : Type 0 where
  pub amount : ℕ
  pub asset_id : Bytes
  pub owner_pubkey : Bytes
  pub salt : Bytes

pub record TransferWitness : Type 0 where
  pub spending_keys : List Bytes
  pub inputs : List NoteData
  pub outputs : List NoteData
  pub merkle_root : Bytes
  pub leaf_indices : List ℕ
  pub merkle_paths : List (List Bytes)

pub record UnshieldWitness : Type 0 where
  pub spending_key : Bytes
  pub note : NoteData

pub record ComplianceWitness : Type 0 where
  pub amounts : List ℕ
  pub regulatory_limit : ℕ

pub record CompliancePublicOutputs : Type 0 where
  pub total_volume : ℕ
  pub regulatory_limit : ℕ
  pub within_limit : Bool
  pub tx_count : ℕ

pub record TransferPublicOutputs : Type 0 where
  pub nullifiers : List Bytes
  pub output_commitments : List Bytes
  pub transfer_amount : ℕ
  pub asset_id : Bytes
  pub merkle_root : Bytes

pub record UnshieldPublicOutputs : Type 0 where
  pub nullifier : Bytes
  pub amount : ℕ
  pub asset_id : Bytes

-- The assertions that may fail.
pub data Panic : Type 0 where
  no_inputs no_outputs key_count input_asset output_asset : Panic
  input_overflow output_overflow unbalanced index_count path_count : Panic
  volume_overflow inclusion_failed zero_output zero_note pubkey_length : Panic

unfoldable pub hash_note : (Bytes → Bytes) → NoteData → Bytes
unfolding to_le_bytes
hash_note sha256 note =
    sha256 (to_le_bytes 8 note.amount ++ (note.asset_id ++ (note.owner_pubkey ++ note.salt)))

unfoldable pub hash_nullifier : (Bytes → Bytes) → Bytes → Bytes → Bytes
hash_nullifier sha256 spending_key commitment = sha256 (spending_key ++ commitment)
