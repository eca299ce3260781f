-- ===== src/Circuits/Balance.antt =====
-- The amounts, the commitments and the nullifiers of an accepted transfer.
use obscura_network.Prelude.{
  ℕ, suc, ◌+◌, ◌<◌, ◌≡◌, refl, ap, ◌∙◌, inl, inr, List, [], ◌∷◌, Bytes, length, ltb, map, u64_mod,
  arith, Bool-cases, ok, Result-cases,
}
use obscura_network.Circuits.Types.{
  NoteData, TransferWitness, TransferPublicOutputs, Panic, input_overflow, output_overflow,
  hash_note,
}
use obscura_network.Circuits.Transfer.{
  sum_loop, nullifiers_of, commit_outputs, transfer_checks, transfer_circuit,
}

-- The sum of the amounts, without bound.
unfoldable pub total : List NoteData → ℕ
total [] = 0
total (note ∷ notes) = note.amount + total notes

sum_loop-ok :
    (overflow : Panic) (acc : ℕ) (notes : List NoteData) (s : ℕ)
    → acc < u64_mod
    → sum_loop overflow acc notes ≡ ok s
    → (s ≡ acc + total notes) × (s < u64_mod)
unfolding sum_loop total
sum_loop-ok overflow acc [] s b h = ground arith
sum_loop-ok overflow acc (note ∷ notes) s b h =
    elim (Bool-cases (ltb (acc + note.amount) u64_mod)) [
      | inl fits ↦
          let (e, c) =
            sum_loop-ok overflow (acc + note.amount) notes s (ground arith) (rw fits at h) in
          (omega (arith, e), c)
      | inr over ↦ absurd (ground arith)
    ]

commit_outputs-ok :
    (sha256 : Bytes → Bytes) (notes : List NoteData) (l : List Bytes)
    → commit_outputs sha256 notes ≡ ok l
    → l ≡ map (hash_note sha256) notes
unfolding commit_outputs
commit_outputs-ok sha256 [] l h = ground arith
commit_outputs-ok sha256 (note ∷ notes) l h = elim (Result-cases (commit_outputs sha256 notes)) [
  | inl (rest, e) ↦ let same = commit_outputs-ok sha256 notes rest e in ground arith
  | inr (x, e) ↦ absurd (ground arith)
]

length-nullifiers_of :
    (sha256 : Bytes → Bytes) (notes : List NoteData) (keys : List Bytes)
    → length notes ≡ length keys
    → length (nullifiers_of sha256 notes keys) ≡ length notes
unfolding nullifiers_of
length-nullifiers_of sha256 [] keys h = refl
length-nullifiers_of sha256 (note ∷ notes) [] h = absurd (omega arith)
length-nullifiers_of sha256 (note ∷ notes) (key ∷ keys) h =
    ap suc (length-nullifiers_of sha256 notes keys (omega arith))

-- What the checks that come out well say.
transfer_checks-ok :
    (sha256 : Bytes → Bytes) (witness : TransferWitness) (asset_id : Bytes)
    (out : TransferPublicOutputs)
    → transfer_checks sha256 witness asset_id ≡ ok out
    → (length witness.inputs ≡ length witness.spending_keys)
      × (sum_loop input_overflow 0 witness.inputs ≡ ok out.transfer_amount)
      × (sum_loop output_overflow 0 witness.outputs ≡ ok out.transfer_amount)
      × (commit_outputs sha256 witness.outputs ≡ ok out.output_commitments)
      × (out.nullifiers ≡ nullifiers_of sha256 witness.inputs witness.spending_keys)
      × (out.merkle_root ≡ witness.merkle_root)
unfolding transfer_checks
transfer_checks-ok sha256 witness asset_id out h = ground arith

pub transfer_circuit-ok :
    (sha256 : Bytes → Bytes) (witness : TransferWitness) (out : TransferPublicOutputs)
    → transfer_circuit sha256 witness ≡ ok out
    → (asset_id : Bytes) × (transfer_checks sha256 witness asset_id ≡ ok out)
unfolding transfer_circuit
transfer_circuit-ok sha256 witness out h = go witness.inputs refl
  where
    go :
        (notes : List NoteData)
        → witness.inputs ≡ notes
        → (asset_id : Bytes) × (transfer_checks sha256 witness asset_id ≡ ok out)
    go [] e = absurd (ground arith)
    go (note ∷ notes) e = (note.asset_id, ground arith)

-- A witness that the transfer program accepts has outputs of the same total as the inputs, which is
-- the public amount, in whole numbers and below 2^64; the public commitments are those of the
-- outputs, in order; there is one nullifier for each input; and the root is that of the witness.
pub transfer_circuit_balanced :
    (sha256 : Bytes → Bytes) (witness : TransferWitness) (out : TransferPublicOutputs)
    → transfer_circuit sha256 witness ≡ ok out
    → (total witness.outputs ≡ total witness.inputs)
      × (out.transfer_amount ≡ total witness.inputs)
      × (total witness.inputs < u64_mod)
      × (out.output_commitments ≡ map (hash_note sha256) witness.outputs)
      × (length out.nullifiers ≡ length witness.inputs)
      × (out.merkle_root ≡ witness.merkle_root)
transfer_circuit_balanced sha256 witness out h =
    let (asset_id, checked) = transfer_circuit-ok sha256 witness out h in
    let (keys, ins, outs, commitments, nullifiers, root) =
      transfer_checks-ok sha256 witness asset_id out checked in
    let (a, b) =
      sum_loop-ok input_overflow 0 witness.inputs out.transfer_amount (omega arith) ins in
    let (c, _) =
      sum_loop-ok output_overflow 0 witness.outputs out.transfer_amount (omega arith) outs in
    (
      omega (arith, a, c),
      omega (arith, a),
      omega (arith, a, b),
      commit_outputs-ok sha256 witness.outputs out.output_commitments commitments,
      ap length nullifiers ∙ length-nullifiers_of sha256 witness.inputs witness.spending_keys keys,
      root,
    )
