-- ===== src/Privacy/Types.antt =====
-- crates/privacy/src/types.rs, and the messages, events and constants of crates/privacy/src/lib.rs.
-- A tuple struct of one byte array (`Commitment`, `Nullifier`, `AssetId`) is its array.
use Prim.Native.String.{String}
use obscura_network.Prelude.{
  ℕ, zero, suc, ◌/◌, ◌%◌, Bool, Option, List, [], ◌∷◌, ◌++◌, Bytes, length, nat_eq, Result, ok, err,
  if◌then◌else◌,
}

-- What the module takes from elsewhere: the sha2 and hex crates, and, when it is built with the
-- `sp1` feature, the Groth16 verifier of the sp1-verifier crate, given the proof, the public inputs
-- and the hash of a verification key.
pub record Env : Type 0 where
  pub sha256 : Bytes → Bytes
  pub hex_encode : Bytes → Bytes
  pub groth16 : Option (Bytes → Bytes → String → Bool)

-- The messages of `bail!`.
pub data Error : Type 0 where
  zero_amount bad_pubkey_length : Error
  tree_full : Error
  unknown_root : Error
  empty_proof verification_failed missing_header : Error
  stale_sanctions_root sanctions_proof_too_old : Error
  already_spent : Error
  not_oracle : Error

pub record Note : Type 0 where
  pub amount : ℕ
  pub asset_id : Bytes
  pub owner_pubkey : Bytes
  pub salt : Bytes

-- The `n` low bytes of a number, the lowest first.
unfoldable pub to_le_bytes : ℕ → ℕ → Bytes
to_le_bytes zero x = []
to_le_bytes (suc n) x = (x % 256) ∷ to_le_bytes n (x / 256)

-- amount ‖ asset_id ‖ owner_pubkey ‖ salt
unfoldable pub note_bytes : Note → Bytes
unfolding to_le_bytes
note_bytes note = to_le_bytes 8 note.amount ++ (note.asset_id ++ (note.owner_pubkey ++ note.salt))

unfoldable pub from_note : Env → Note → Result Error Bytes
unfolding note_bytes
from_note env note =
    if nat_eq note.amount 0
    then err zero_amount
    else (if nat_eq (length note.owner_pubkey) 32
        then ok (env.sha256 (note_bytes note))
        else err bad_pubkey_length)

-- `Nullifier::compute`
unfoldable pub compute : Env → Bytes → Bytes → Bytes
compute env spending_key commitment = env.sha256 (spending_key ++ commitment)

pub record ShieldMessage : Type 0 where
  pub note : Note
  pub encrypted_note : Bytes

pub record TransferPublicInputs : Type 0 where
  pub transfer_amount : ℕ
  pub asset_id : Bytes
  pub merkle_root : Bytes

pub record SanctionsPublicInputs : Type 0 where
  pub recipient_commitment : Bytes
  pub sanctions_root : Bytes
  pub proof_timestamp : ℕ

pub record TransferMessage : Type 0 where
  pub proof : Bytes
  pub public_inputs : TransferPublicInputs
  pub nullifiers : List Bytes
  pub output_commitments : List Bytes
  pub sanctions_proof : Bytes
  pub sanctions_public_inputs : SanctionsPublicInputs
  pub encrypted_outputs : List Bytes

pub record UnshieldPublicInputs : Type 0 where
  pub amount : ℕ
  pub asset_id : Bytes

pub record UnshieldMessage : Type 0 where
  pub proof : Bytes
  pub public_inputs : UnshieldPublicInputs
  pub nullifier : Bytes
  pub recipient : Bytes

pub record UpdateSanctionsRootMessage : Type 0 where
  pub new_root : Bytes

pub data CallMessage : Type 0 where
  shield : ShieldMessage → CallMessage
  transfer : TransferMessage → CallMessage
  unshield : UnshieldMessage → CallMessage
  update_sanctions_root : UpdateSanctionsRootMessage → CallMessage

pub data PrivacyEvent : Type 0 where
  shielded : (commitment : Bytes) → PrivacyEvent
  private_transfer : (nullifier_count output_count : ℕ) → PrivacyEvent
  unshielded : (nullifier : Bytes) (amount : ℕ) → PrivacyEvent
  sanctions_root_updated : (new_root : Bytes) → PrivacyEvent

abbrev pub sanctions_proof_max_age_secs : ℕ
sanctions_proof_max_age_secs = 86400
