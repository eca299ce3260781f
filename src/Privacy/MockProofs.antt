-- ===== src/Privacy/MockProofs.antt =====
-- The proofs that the testing build accepts.
use Prim.Native.String.{String}
use obscura_network.Prelude.{
  ◌≡◌, subst, ◌↔◌, Bool, Option, none, [], ◌∷◌, Bytes, bytes_eq, Bytes_Eq, arith, ok,
}
use obscura_network.Privacy.Types.{
  Env, TransferPublicInputs, UnshieldPublicInputs, SanctionsPublicInputs,
}
use obscura_network.Privacy.Zk.{
  check_proof, verify_transfer_proof, verify_unshield_proof, verify_sanctions_proof, mock_proof,
}

check_proof-mock :
    (vk_hash : String) (payload : Bytes) → check_proof none vk_hash (mock_proof payload) ≡ ok tt
unfolding check_proof mock_proof bytes_eq
check_proof-mock vk_hash payload = ground arith

check_proof-header :
    (vk_hash : String) (proof : Bytes)
    → check_proof none vk_hash proof ≡ ok tt
    → (payload : Bytes) × (proof ≡ mock_proof payload)
unfolding check_proof mock_proof bytes_eq
check_proof-header vk_hash [] h = absurd (ground arith)
check_proof-header vk_hash (a ∷ []) h = absurd (ground arith)
check_proof-header vk_hash (a ∷ b ∷ []) h = absurd (ground arith)
check_proof-header vk_hash (a ∷ b ∷ c ∷ []) h = absurd (ground arith)
check_proof-header vk_hash (a ∷ b ∷ c ∷ d ∷ rest) h = (rest, ground arith)

check_proof_iff :
    (groth16 : Option (Bytes → Bytes → String → Bool)) (vk_hash : String) (proof : Bytes)
    → groth16 ≡ none
    → (check_proof groth16 vk_hash proof ≡ ok tt)
      ↔ ((payload : Bytes) × (proof ≡ mock_proof payload))
check_proof_iff groth16 vk_hash proof e = (
  (λ h. check_proof-header vk_hash proof (subst (λ g. check_proof g vk_hash proof ≡ ok tt) e h)),
  (λ m. rw (e, m.1) (check_proof-mock vk_hash m.0)),
)

-- In the build without `sp1`, the three checks accept exactly the byte strings that `mock_proof`
-- makes, whatever the public inputs are.
pub mock_proofs_iff :
    (env : Env) (proof : Bytes) (transfer : TransferPublicInputs) (unshield : UnshieldPublicInputs)
    (sanctions : SanctionsPublicInputs)
    → env.groth16 ≡ none
    → ((verify_transfer_proof env proof transfer ≡ ok tt)
        ↔ ((payload : Bytes) × (proof ≡ mock_proof payload)))
      × ((verify_unshield_proof env proof unshield ≡ ok tt)
          ↔ ((payload : Bytes) × (proof ≡ mock_proof payload)))
      × ((verify_sanctions_proof env proof sanctions ≡ ok tt)
          ↔ ((payload : Bytes) × (proof ≡ mock_proof payload)))
unfolding verify_transfer_proof verify_unshield_proof verify_sanctions_proof
mock_proofs_iff env proof transfer unshield sanctions e = (
  check_proof_iff env.groth16 _ proof e,
  check_proof_iff env.groth16 _ proof e,
  check_proof_iff env.groth16 _ proof e,
)
