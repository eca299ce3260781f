-- ===== src/Combined.antt =====
-- crates/provers/sp1/guest-combined/src: types.rs and bin/transfer_sanctions.rs, the program that
-- makes one proof of a transfer's and a sanctions check's. A failed assertion ends the run in an
-- error. The public outputs of the two parts are the records of guest-privacy, as types.rs demands.
pub mod Sound
pub mod Verifier
use obscura_network.Prelude.{
  ℕ, Bool, true, false, not, Option, some, none, List, [], ◌∷◌, Bytes, length, nat_eq, ltb, Result,
  ok, err, ◌>>=◌, ◌>>◌, guard,
}
use obscura_network.Circuits.Types.{TransferPublicOutputs}
use obscura_network.Sanctions.Circuit.{SanctionsPublicOutputs}

pub record CombinedPublicOutputs : Type 0 where
  pub nullifiers : List Bytes
  pub output_commitments : List Bytes
  pub transfer_amount : ℕ
  pub asset_id : Bytes
  pub merkle_root : Bytes
  pub recipient_commitment : Bytes
  pub sanctions_root : Bytes
  pub proof_timestamp : ℕ
  pub transfer_vk_hash : List ℕ
  pub sanctions_vk_hash : List ℕ

-- What the program reads, in the order in which it reads it.
pub record CombinedInput : Type 0 where
  pub transfer_pv_bytes : Bytes
  pub transfer_vk_hash : List ℕ
  pub sanctions_pv_bytes : Bytes
  pub sanctions_vk_hash : List ℕ

-- Code that is not the repository's: the verifier of SP1, which is false where it panics, and the
-- decoder of bincode at the two types.
pub record Sp1 : Type 0 where
  pub verify_sp1_proof : List ℕ → Bytes → Bool
  pub decode_transfer : Bytes → Option TransferPublicOutputs
  pub decode_sanctions : Bytes → Option SanctionsPublicOutputs

pub data CombinedPanic : Type 0 where
  invalid_transfer_proof malformed_transfer invalid_sanctions_proof : CombinedPanic
  malformed_sanctions not_clean zero_timestamp zero_transfer_amount : CombinedPanic
  no_nullifiers no_output_commitments : CombinedPanic

-- `expect(..)`
abbrev pub expect {ℓ} : {A : Type ℓ} → CombinedPanic → Option A → Result CombinedPanic A
expect e none = err e
expect e (some a) = ok a

unfoldable pub combined_circuit :
    (Bytes → Bytes) → Sp1 → CombinedInput → Result CombinedPanic CombinedPublicOutputs
combined_circuit sha256 sp1 input = do
  guard (sp1.verify_sp1_proof input.transfer_vk_hash (sha256 input.transfer_pv_bytes))
      invalid_transfer_proof
  transfer_out ← expect malformed_transfer (sp1.decode_transfer input.transfer_pv_bytes)
  guard (sp1.verify_sp1_proof input.sanctions_vk_hash (sha256 input.sanctions_pv_bytes))
      invalid_sanctions_proof
  sanctions_out ← expect malformed_sanctions (sp1.decode_sanctions input.sanctions_pv_bytes)
  guard sanctions_out.is_clean not_clean
  guard (ltb 0 sanctions_out.proof_timestamp) zero_timestamp
  guard (ltb 0 transfer_out.transfer_amount) zero_transfer_amount
  guard (not (nat_eq (length transfer_out.nullifiers) 0)) no_nullifiers
  guard (not (nat_eq (length transfer_out.output_commitments) 0)) no_output_commitments
  ok (record {
    nullifiers = transfer_out.nullifiers;
    output_commitments = transfer_out.output_commitments;
    transfer_amount = transfer_out.transfer_amount;
    asset_id = transfer_out.asset_id;
    merkle_root = transfer_out.merkle_root;
    recipient_commitment = sanctions_out.recipient_commitment;
    sanctions_root = sanctions_out.sanctions_root;
    proof_timestamp = sanctions_out.proof_timestamp;
    transfer_vk_hash = input.transfer_vk_hash;
    sanctions_vk_hash = input.sanctions_vk_hash;
  })
