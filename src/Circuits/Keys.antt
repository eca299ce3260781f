-- ===== src/Circuits/Keys.antt =====
-- The spending keys of a transfer.
use obscura_network.Prelude.{◌≡◌, refl, ap, ◌∙◌, List, [], ◌∷◌, Bytes, length, arith, ok}
use obscura_network.Circuits.Types.{NoteData, TransferWitness, TransferPublicOutputs}
use obscura_network.Circuits.Transfer.{nullifiers_of, transfer_checks, transfer_circuit}

transfer_checks-any_keys :
    (sha256 : Bytes → Bytes) (witness : TransferWitness) (asset_id : Bytes)
    (out : TransferPublicOutputs) (keys : List Bytes)
    → length keys ≡ length witness.spending_keys
    → transfer_checks sha256 witness asset_id ≡ ok out
    → transfer_checks sha256 (record witness { spending_keys = keys }) asset_id
      ≡ ok (record out { nullifiers = nullifiers_of sha256 witness.inputs keys })
unfolding transfer_checks
transfer_checks-any_keys sha256 witness asset_id out keys same h = ground arith

-- A witness that the transfer program accepts is also accepted with any other spending keys, as
-- many of them, with the same public values but for the nullifiers, which are those of the other
-- keys.
pub transfer_circuit_any_keys :
    (sha256 : Bytes → Bytes) (witness : TransferWitness) (out : TransferPublicOutputs)
    (keys : List Bytes)
    → length keys ≡ length witness.spending_keys
    → transfer_circuit sha256 witness ≡ ok out
    → transfer_circuit sha256 (record witness { spending_keys = keys })
      ≡ ok (record out { nullifiers = nullifiers_of sha256 witness.inputs keys })
unfolding transfer_circuit
transfer_circuit_any_keys sha256 witness out keys same h = go witness.inputs refl
  where
    go :
        (notes : List NoteData)
        → witness.inputs ≡ notes
        → transfer_circuit sha256 (record witness { spending_keys = keys })
          ≡ ok (record out { nullifiers = nullifiers_of sha256 witness.inputs keys })
    go [] e = absurd (ground arith)
    go (note ∷ notes) e =
        let checked : transfer_checks sha256 witness note.asset_id ≡ ok out = ground arith in
        let other = transfer_checks-any_keys sha256 witness note.asset_id out keys same checked in
        rw (e, transfer_circuit)
          (other ∙ ap (λ l. ok (record out { nullifiers = nullifiers_of sha256 l keys })) e)
