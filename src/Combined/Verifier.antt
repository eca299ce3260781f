-- ===== src/Combined/Verifier.antt =====
-- The verification of crates/privacy/src/combined_prover.rs, and the runs behind a verified
-- proof.
use obscura_network.Prelude.{
  ℕ, ◌+◌, ◌^◌, ◌≤◌, ◌≡◌, ◌⊎◌, refl, Bool, true, false, Option, none, some, List, [], ◌∷◌, ◌++◌,
  Bytes, length, take, ltb, not, ◌||◌, ◌==◌, Bytes_Eq, bytes_eq, bytes_eq_sound, Bool-cases, inl,
  inr, if◌then◌else◌, Result, ok, err, guard, ◌>>=◌, ◌>>◌,
}
use obscura_network.Merkle.Inclusion.{Collision}
use obscura_network.Privacy.Types.{to_le_bytes}
use obscura_network.Circuits.Types.{TransferWitness}
use obscura_network.Circuits.Transfer.{transfer_circuit}
use obscura_network.Circuits.Balance.{total}
use obscura_network.Sanctions.Order.{IsArray}
use obscura_network.Sanctions.Sort.{contains}
use obscura_network.Sanctions.Oracle.{SanctionsMerkleTree, build, root}
use obscura_network.Sanctions.Circuit.{recipient_commitment}
use obscura_network.Combined.{CombinedPublicOutputs, CombinedInput, Sp1, combined_circuit}
use obscura_network.Combined.Sound.{IsSp1, transfer_part, combined_circuit_sound}

-- b"OBSc"
abbrev pub mock_prefix : Bytes
mock_prefix = b'O' ∷ b'B' ∷ b'S' ∷ b'c' ∷ []

pub data VerifyError : Type 0 where
  empty_proof invalid_format elf_not_found setup_failed malformed_proof : VerifyError
  verification_failed malformed_values : VerifyError
  transfer_vk_mismatch sanctions_vk_mismatch : VerifyError

-- The build with `sp1`: the file of the program, and of the SDK the key of a program, the decoder of
-- a proof, its verifier, and the ten reads of the public values, of which there are none where a
-- read panics.
pub record Sdk : Type 1 where
  pub Key : Type 0
  pub Proof : Type 0
  pub combined_elf : Option Bytes
  pub setup : Bytes → Option Key
  pub deserialize : Bytes → Option Proof
  pub verify : Proof → Key → Bool
  pub public_values : Proof → Option CombinedPublicOutputs

abbrev pub or_fails {ℓ} : {A : Type ℓ} → Option A → VerifyError → Result VerifyError A
or_fails none e = err e
or_fails (some a) e = ok a

-- `if let Some(expected) = .. { if &hash != expected { bail!(..) } }`
unfoldable pub check_vk : Option (List ℕ) → List ℕ → VerifyError → Result VerifyError (Unit {0})
check_vk none vk_hash e = ok tt
check_vk (some expected) vk_hash e = guard (vk_hash == expected) e

unfoldable pub verify_combined_sp1 :
    Sdk → Bytes → Option (List ℕ) → Option (List ℕ) → Result VerifyError (Unit {0})
verify_combined_sp1 sdk proof_bytes expected_transfer_vk expected_sanctions_vk = do
  elf ← or_fails sdk.combined_elf elf_not_found
  vk ← or_fails (sdk.setup elf) setup_failed
  proof ← or_fails (sdk.deserialize proof_bytes) malformed_proof
  guard (sdk.verify proof vk) verification_failed
  values ← or_fails (sdk.public_values proof) malformed_values
  check_vk expected_transfer_vk values.transfer_vk_hash transfer_vk_mismatch
  check_vk expected_sanctions_vk values.sanctions_vk_hash sanctions_vk_mismatch

-- The build without `sp1` looks at the four bytes in front.
unfoldable pub check_prefix : Bytes → Result VerifyError (Unit {0})
check_prefix proof =
    if ltb (length proof) 4 || not (take 4 proof == mock_prefix) then err invalid_format else ok tt

unfoldable pub verify_combined_proof :
    Option Sdk → Bytes → Option (List ℕ) → Option (List ℕ) → Result VerifyError (Unit {0})
verify_combined_proof sp1 [] expected_transfer expected_sanctions = err empty_proof
verify_combined_proof none (b ∷ proof) expected_transfer expected_sanctions =
    check_prefix (b ∷ proof)
verify_combined_proof (some sdk) (b ∷ proof) expected_transfer expected_sanctions =
    verify_combined_sp1 sdk (b ∷ proof) expected_transfer expected_sanctions

unfoldable pub mock_combined_proof : ℕ → ℕ → Bytes
unfolding to_le_bytes
mock_combined_proof transfer_amount sanctions_timestamp =
    mock_prefix ++ (to_le_bytes 8 transfer_amount ++ to_le_bytes 8 sanctions_timestamp)

-- What the SDK is documented to ensure: a proof that verifies for the key of the program was made by
-- a run of the program, whose outputs are the public values.
pub record IsSdk (sha256 : Bytes → Bytes) (sp1 : Sp1) (sdk : Sdk) : Type 0 where
  pub ran :
      (elf : Bytes) (vk : sdk.Key) (proof : sdk.Proof) (out : CombinedPublicOutputs)
      → sdk.combined_elf ≡ some elf
      → sdk.setup elf ≡ some vk
      → sdk.verify proof vk ≡ true
      → sdk.public_values proof ≡ some out
      → (input : CombinedInput) × (combined_circuit sha256 sp1 input ≡ ok out)

or_fails-ok {ℓ κ} :
    {A : Type ℓ} {B : Type κ} (m : Option A) (e : VerifyError) (f : A → Result VerifyError B)
    (b : B)
    → (or_fails m e >>= f) ≡ ok b
    → (a : A) × (m ≡ some a) × (f a ≡ ok b)
or_fails-ok none e f b h = absurd (cc h)
or_fails-ok (some a) e f b h = (a, refl, h)

guard-ok {ℓ} :
    {B : Type ℓ} (test : Bool) (e : VerifyError) (r : Result VerifyError B) (b : B)
    → (guard test e >> r) ≡ ok b
    → (test ≡ true) × (r ≡ ok b)
guard-ok true e r b h = (refl, h)
guard-ok false e r b h = absurd (cc h)

-- Keys that are lists of numbers are compared as bytes are.
guarded_eq : (l m : List ℕ) (e : VerifyError) → guard (bytes_eq l m) e ≡ ok tt → l ≡ m
guarded_eq l m e h = elim (Bool-cases (bytes_eq l m)) [
  | inl same ↦ bytes_eq_sound l m same
  | inr differ ↦ absurd (cc (rw differ at h))
]

-- What a proof was checked for, with both hashes expected.
verify_combined_sp1-ok :
    (sdk : Sdk) (proof_bytes : Bytes) (transfer_vk sanctions_vk : List ℕ) (proof : sdk.Proof)
    (out : CombinedPublicOutputs)
    → sdk.deserialize proof_bytes ≡ some proof
    → sdk.public_values proof ≡ some out
    → verify_combined_sp1 sdk proof_bytes (some transfer_vk) (some sanctions_vk) ≡ ok tt
    → (elf : Bytes) × (vk : sdk.Key) × (sdk.combined_elf ≡ some elf)
      × (sdk.setup elf ≡ some vk)
      × (sdk.verify proof vk ≡ true)
      × (out.transfer_vk_hash ≡ transfer_vk)
      × (out.sanctions_vk_hash ≡ sanctions_vk)
unfolding verify_combined_sp1 check_vk
verify_combined_sp1-ok sdk proof_bytes transfer_vk sanctions_vk proof out d p h =
    let (elf, found, h₁) = or_fails-ok sdk.combined_elf elf_not_found _ tt h in
    let (vk, made, h₂) = or_fails-ok (sdk.setup elf) setup_failed _ tt h₁ in
    let (good, h₃) = guard-ok (sdk.verify proof vk) verification_failed _ tt (rw d at h₂) in
    let (same, h₄) =
      guard-ok (bytes_eq out.transfer_vk_hash transfer_vk) transfer_vk_mismatch _ tt (rw p at h₃) in
    (
      elf,
      vk,
      found,
      made,
      good,
      bytes_eq_sound out.transfer_vk_hash transfer_vk same,
      guarded_eq out.sanctions_vk_hash sanctions_vk sanctions_vk_mismatch h₄,
    )

verify_combined_proof-sp1 :
    (sdk : Sdk) (proof_bytes : Bytes) (t s : Option (List ℕ))
    → verify_combined_proof (some sdk) proof_bytes t s ≡ ok tt
    → verify_combined_sp1 sdk proof_bytes t s ≡ ok tt
unfolding verify_combined_proof
verify_combined_proof-sp1 sdk [] t s h = absurd (cc h)
verify_combined_proof-sp1 sdk (b ∷ proof) t s h = h

pub verified_proof_sound :
    (sha256 : Bytes → Bytes) (hash_array : (x : Bytes) → IsArray 32 (sha256 x)) (sp1 : Sp1)
    (sdk : Sdk) (transfer_vk sanctions_vk : List ℕ)
    → IsSp1 sha256 sp1 transfer_vk sanctions_vk
    → IsSdk sha256 sp1 sdk
    → (addresses : List Bytes) (tree : SanctionsMerkleTree) (proof_bytes : Bytes)
      (proof : sdk.Proof) (out : CombinedPublicOutputs)
    → length addresses + 2 ≤ 2 ^ 63
    → build sha256 addresses ≡ ok tree
    → sdk.deserialize proof_bytes ≡ some proof
    → sdk.public_values proof ≡ some out
    → root tree ≡ ok out.sanctions_root
    → verify_combined_proof (some sdk) proof_bytes (some transfer_vk) (some sanctions_vk) ≡ ok tt
    → (((w : TransferWitness) × (transfer_circuit sha256 w ≡ ok (transfer_part out))
          × (total w.outputs ≡ total w.inputs)
          × (out.transfer_amount ≡ total w.inputs))
        × ((recipient : Bytes) × (recipient_commitment sha256 recipient ≡ out.recipient_commitment)
            × (contains recipient addresses ≡ false)))
      ⊎ Collision sha256
verified_proof_sound sha256 hash_array sp1 sdk transfer_vk sanctions_vk is_sp1 is_sdk addresses tree
      proof_bytes proof out bound built d p at_root h =
    let (elf, vk, found, made, good, same, same') =
      verify_combined_sp1-ok sdk proof_bytes transfer_vk sanctions_vk proof out d p
        (verify_combined_proof-sp1 sdk proof_bytes (some transfer_vk) (some sanctions_vk) h) in
    let (input, ran) = is_sdk.ran elf vk proof out found made good p in
    combined_circuit_sound sha256 hash_array sp1 transfer_vk sanctions_vk is_sp1 addresses tree
      input out bound built same same' at_root ran
