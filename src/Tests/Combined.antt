-- ===== src/Tests/Combined.antt =====
-- A run of the program that combines the proofs of a transfer and of a sanctions check.
use obscura_network.Prelude.{
  ◌≡◌, ◌⊎◌, refl, [], ◌∷◌, Bytes, false, ◌==◌, Bytes_Eq, bytes_eq, bytes_eq_sound, if◌then◌else◌,
  some, none, arith, ok, sym, replicate, Bool, true, some_cancel, ap, ◌∙◌,
}
use obscura_network.Merkle.Inclusion.{Collision}
use obscura_network.Circuits.Types.{TransferWitness, TransferPublicOutputs}
use obscura_network.Circuits.Transfer.{transfer_circuit, nullifiers_of}
use obscura_network.Circuits.Balance.{total}
use obscura_network.Sanctions.Sort.{contains}
use obscura_network.Sanctions.Circuit.{SanctionsPublicOutputs, recipient_commitment, clean_outputs}
use obscura_network.Combined.{CombinedPublicOutputs, CombinedInput, Sp1, combined_circuit}
use obscura_network.Combined.Sound.{IsSp1, transfer_part}
use obscura_network.Combined.Verifier.{
  Sdk, IsSdk, check_vk, verify_combined_sp1, verify_combined_proof, verified_proof_sound,
}
use obscura_network.Tests.Data.{toy_hash, toy_hash-IsArray}
use obscura_network.Tests.Circuit as Pool
use obscura_network.Tests.Oracle as Oracle

abbrev transfer_pv : Bytes
transfer_pv = 1 ∷ []

abbrev sanctions_pv : Bytes
sanctions_pv = 2 ∷ []

abbrev transferred : TransferPublicOutputs
transferred = Pool.made_public Pool.witness.spending_keys

abbrev cleared : SanctionsPublicOutputs
cleared = clean_outputs toy_hash Oracle.witness

-- Of somebody else, at another time.
abbrev other_pv : Bytes
other_pv = 3 ∷ []

abbrev other_cleared : SanctionsPublicOutputs
other_cleared = record cleared { recipient_commitment = replicate 32 8; proof_timestamp = 7 }

-- A verifier that knows three proofs, under the keys 1, 2 and 3.
abbrev sp1 : Sp1
sp1 = record {
  verify_sp1_proof = λ vk digest.
      if vk == (1 ∷ [])
      then digest == toy_hash transfer_pv
      else if vk == (2 ∷ [])
      then digest == toy_hash sanctions_pv
      else (if vk == (3 ∷ []) then digest == toy_hash other_pv else false);
  decode_transfer = λ pv. if pv == transfer_pv then some transferred else none;
  decode_sanctions = λ pv.
      if pv == sanctions_pv
      then some cleared
      else (if pv == other_pv then some other_cleared else none);
}

sp1-IsSp1 : IsSp1 toy_hash sp1 (1 ∷ []) (2 ∷ [])
unfolding bytes_eq
sp1-IsSp1 = record {
  transfer = λ digest h. (
    Pool.witness,
    transferred,
    transfer_pv,
    Pool.witness_lem,
    refl,
    sym (bytes_eq_sound digest (toy_hash transfer_pv) h),
  );
  sanctions = λ digest h. (
    Oracle.witness,
    cleared,
    sanctions_pv,
    record {
      left_proof = (refl, (refl, tt));
      right_proof = (refl, (refl, tt));
      left_index = omega arith;
    },
    Oracle.witness_lem,
    refl,
    sym (bytes_eq_sound digest (toy_hash sanctions_pv) h),
  );
}

abbrev input : CombinedInput
input = record {
  transfer_pv_bytes = transfer_pv;
  transfer_vk_hash = 1 ∷ [];
  sanctions_pv_bytes = sanctions_pv;
  sanctions_vk_hash = 2 ∷ [];
}

abbrev outputs : CombinedPublicOutputs
outputs = record {
  nullifiers = transferred.nullifiers;
  output_commitments = transferred.output_commitments;
  transfer_amount = 50;
  asset_id = transferred.asset_id;
  merkle_root = transferred.merkle_root;
  recipient_commitment = cleared.recipient_commitment;
  sanctions_root = cleared.sanctions_root;
  proof_timestamp = 1000;
  transfer_vk_hash = 1 ∷ [];
  sanctions_vk_hash = 2 ∷ [];
}

input_lem : combined_circuit toy_hash sp1 input ≡ ok outputs
unfolding combined_circuit bytes_eq nullifiers_of
input_lem = refl

abbrev other_input : CombinedInput
other_input = record input { sanctions_pv_bytes = other_pv; sanctions_vk_hash = 3 ∷ [] }

abbrev other_outputs : CombinedPublicOutputs
other_outputs = record outputs {
  recipient_commitment = replicate 32 8;
  proof_timestamp = 7;
  sanctions_vk_hash = 3 ∷ [];
}

other_lem : combined_circuit toy_hash sp1 other_input ≡ ok other_outputs
unfolding combined_circuit bytes_eq nullifiers_of
other_lem = refl

-- An SDK whose proofs are their public values, of which it knows one.
abbrev sdk : Sdk
sdk = record {
  Key = Bytes;
  Proof = Bytes;
  combined_elf = some (7 ∷ []);
  setup = λ elf. some elf;
  deserialize = λ b. some b;
  verify = λ proof vk. proof == (9 ∷ []);
  public_values = λ proof. if proof == (9 ∷ []) then some outputs else none;
}

chosen :
    (b : Bool) (out : CombinedPublicOutputs)
    → b ≡ true
    → (if b then some outputs else none) ≡ some out
    → outputs ≡ out
chosen true out h e = some_cancel e
chosen false out h e = absurd (cc h)

sdk-IsSdk : IsSdk toy_hash sp1 sdk
sdk-IsSdk = record {
  ran = λ elf vk proof out found made good values.
      (input, input_lem ∙ ap ok (chosen (proof == (9 ∷ [])) out good values));
}

checked_lem : verify_combined_proof (some sdk) (9 ∷ []) (some (1 ∷ [])) (some (2 ∷ [])) ≡ ok tt
unfolding verify_combined_proof verify_combined_sp1 check_vk bytes_eq
checked_lem = refl

values_lem : sdk.public_values (9 ∷ []) ≡ some outputs
unfolding bytes_eq
values_lem = refl

verified_proof_sound_example :
    (((w : TransferWitness) × (transfer_circuit toy_hash w ≡ ok (transfer_part outputs))
        × (total w.outputs ≡ total w.inputs)
        × (50 ≡ total w.inputs))
      × ((recipient : Bytes) × (recipient_commitment toy_hash recipient
            ≡ outputs.recipient_commitment)
          × (contains recipient Oracle.addresses ≡ false)))
    ⊎ Collision toy_hash
verified_proof_sound_example =
    verified_proof_sound toy_hash toy_hash-IsArray sp1 sdk (1 ∷ []) (2 ∷ []) sp1-IsSp1 sdk-IsSdk
      Oracle.addresses Oracle.tree (9 ∷ []) (9 ∷ []) outputs (omega arith) Oracle.tree_lem refl
      values_lem Oracle.root_lem checked_lem
