-- ===== src/Circuits/Unshield.antt =====
-- crates/provers/sp1/guest-privacy/src/bin/unshield.rs.
use obscura_network.Prelude.{Bytes, length, ltb, nat_eq, Result, ok, ◌>>◌, guard}
use obscura_network.Circuits.Types.{
  UnshieldWitness, UnshieldPublicOutputs, Panic, zero_note, pubkey_length, hash_note,
  hash_nullifier,
}

unfoldable pub unshield_circuit :
    (Bytes → Bytes) → UnshieldWitness → Result Panic UnshieldPublicOutputs
unshield_circuit sha256 witness = do
  guard (ltb 0 witness.note.amount) zero_note
  guard (nat_eq (length witness.note.owner_pubkey) 32) pubkey_length
  let commitment = hash_note sha256 witness.note
  ok (record {
    nullifier = hash_nullifier sha256 witness.spending_key commitment;
    amount = witness.note.amount;
    asset_id = witness.note.asset_id;
  })
