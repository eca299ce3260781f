-- ===== src/Privacy/Zk.antt =====
-- crates/privacy/src/zk/mod.rs: the checks of the proofs that come with a call.
use Prim.Native.String.{String}
use obscura_network.Prelude.{
  Bool, true, false, Option, none, some, [], ◌∷◌, ◌++◌, Bytes, length, take, ltb, ◌||◌, not, ◌==◌,
  Bytes_Eq, Result, ok, err, if◌then◌else◌,
}
use obscura_network.Privacy.Types.{
  Env, Error, empty_proof, verification_failed, missing_header, TransferPublicInputs,
  UnshieldPublicInputs, SanctionsPublicInputs,
}

-- b"OBSv"
abbrev pub mock_header : Bytes
mock_header = b'O' ∷ b'B' ∷ b'S' ∷ b'v' ∷ []

abbrev pub transfer_vk_hash : String
transfer_vk_hash = "0x00c5d483a0285f4a44d86bb6b142a0fbbdb7ac765e2436b8c9222907a198ed08"

abbrev pub unshield_vk_hash : String
unshield_vk_hash = "0x001f5c8123eb2c9b803e50ef3379697e5ccf2153dab59630b893b04c10bb238a"

abbrev pub sanctions_vk_hash : String
sanctions_vk_hash = "0x0000000000000000000000000000000000000000000000000000000000000000"

unfoldable pub is_empty : Bytes → Bool
is_empty [] = true
is_empty (x ∷ l) = false

-- The build without `sp1`: four bytes of header are all that is looked at.
unfoldable pub check_header : Bytes → Result Error (Unit {0})
check_header proof =
    if ltb (length proof) 4 || not (take 4 proof == mock_header) then err missing_header else ok tt

-- The build with `sp1`; the public inputs handed to the verifier are empty.
unfoldable pub check_groth16 :
    (Bytes → Bytes → String → Bool) → String → Bytes → Result Error (Unit {0})
check_groth16 verifier vk_hash proof =
    if verifier proof [] vk_hash then ok tt else err verification_failed

unfoldable pub check_proof :
    Option (Bytes → Bytes → String → Bool) → String → Bytes → Result Error (Unit {0})
unfolding is_empty check_header check_groth16
check_proof groth16 vk_hash proof = if is_empty proof then err empty_proof else (elim groth16 [
  | none ↦ check_header proof
  | some verifier ↦ check_groth16 verifier vk_hash proof
])

unfoldable pub verify_transfer_proof : Env → Bytes → TransferPublicInputs → Result Error (Unit {0})
unfolding check_proof
verify_transfer_proof env proof inputs = check_proof env.groth16 transfer_vk_hash proof

unfoldable pub verify_unshield_proof : Env → Bytes → UnshieldPublicInputs → Result Error (Unit {0})
unfolding check_proof
verify_unshield_proof env proof inputs = check_proof env.groth16 unshield_vk_hash proof

unfoldable pub verify_sanctions_proof :
    Env → Bytes → SanctionsPublicInputs → Result Error (Unit {0})
unfolding check_proof
verify_sanctions_proof env proof inputs = check_proof env.groth16 sanctions_vk_hash proof

-- A proof of the testing build.
unfoldable pub mock_proof : Bytes → Bytes
mock_proof payload = mock_header ++ payload
