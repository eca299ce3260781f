-- ===== src/Bridge/Verifier.antt =====
-- crates/zk-bridge/src/verifier.rs and helios.rs: the checks of the two kinds of proofs.
use obscura_network.Prelude.{
  Bool, true, false, ◌&&◌, Option, none, some, [], ◌∷◌, Bytes, ◌==◌, ℕ_Eq, Bytes_Eq, nat_eq, Result,
  ok, err, ◌>>◌, guard, if◌then◌else◌,
}
use obscura_network.Bridge.Types.{
  Env, Committed, Error, sp1_not_implemented, sp1_not_compiled, helios_proof_rejected,
  committed_mismatch, BridgePublicInputs, HeliosPublicInputs,
}

-- b"OBSbridge"
abbrev pub mock_proof_prefix : Bytes
mock_proof_prefix = b'O' ∷ b'B' ∷ b'S' ∷ b'b' ∷ b'r' ∷ b'i' ∷ b'd' ∷ b'g' ∷ b'e' ∷ []

-- b"OBShelios"
abbrev pub mock_helios_prefix : Bytes
mock_helios_prefix = b'O' ∷ b'B' ∷ b'S' ∷ b'h' ∷ b'e' ∷ b'l' ∷ b'i' ∷ b'o' ∷ b's' ∷ []

unfoldable pub starts_with : Bytes → Bytes → Bool
starts_with l [] = true
starts_with [] (p ∷ prefix) = false
starts_with (a ∷ l) (p ∷ prefix) = nat_eq a p && starts_with l prefix

-- The verification of a real proof is not there in either build.
unfoldable pub verify_bridge_proof : Env → Bytes → BridgePublicInputs → Result Error (Unit {0})
unfolding starts_with
verify_bridge_proof env proof public_inputs =
    if starts_with proof mock_proof_prefix
    then ok tt
    else (elim env.native [ none ↦ err sp1_not_compiled | some _ ↦ err sp1_not_implemented ])

-- The values that the proof commits to must be those of the inputs.
unfoldable pub check_committed : Committed → HeliosPublicInputs → Result Error (Unit {0})
check_committed committed inputs = do
  guard (committed.prev_root == inputs.prev_trusted_root) committed_mismatch
  guard (committed.new_root == inputs.new_beacon_root) committed_mismatch
  guard (committed.slot == inputs.new_slot) committed_mismatch
  guard (committed.block_hash == inputs.execution_block_hash) committed_mismatch

unfoldable pub verify_helios_sp1_proof :
    (Bytes → Option Committed) → Bytes → HeliosPublicInputs → Result Error (Unit {0})
unfolding check_committed
verify_helios_sp1_proof verifier proof inputs = elim (verifier proof) [
  | none ↦ err helios_proof_rejected
  | some committed ↦ check_committed committed inputs
]

unfoldable pub verify_helios_proof : Env → Bytes → HeliosPublicInputs → Result Error (Unit {0})
unfolding starts_with
verify_helios_proof env proof inputs =
    if starts_with proof mock_helios_prefix then ok tt else (elim env.native [
      | none ↦ err sp1_not_compiled
      | some verifier ↦ verify_helios_sp1_proof verifier proof inputs
    ])
