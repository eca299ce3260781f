-- ===== src/Provers/Accepted.antt =====
-- What `prove_transfer` and `prove_unshield` give to the programs, for notes of the pool.
use obscura_network.Prelude.{
  lt→ltb, ℕ, ◌^◌, ◌≤◌, ◌<◌, ◌≡◌, refl, sym, ap, ◌∙◌, subst, true, List, [], ◌∷◌, Bytes, map, length,
  get_elem?, bytes_eq, some, some_cancel, nat_eq, nat_eq_iff, u64_mod, arith, ok, Bytes_Eq,
}
use obscura_network.Merkle.{tree_depth, climb, verify, build_proof_paths}
use obscura_network.Merkle.Tree.{leaves_of, tree_root}
use obscura_network.Merkle.Paths.{build_proof_paths-verify}
use obscura_network.Privacy.Types.{Env, Note, from_note, compute}
use obscura_network.Circuits.Types.{
  TransferWitness, input_overflow, output_overflow, hash_nullifier,
}
use obscura_network.Circuits.Transfer.{
  verify_merkle_inclusion, check_paths, any_note, transfer_checks, transfer_circuit,
}
use obscura_network.Circuits.Unshield.{unshield_circuit}
use obscura_network.Circuits.Balance.{total}
use obscura_network.Provers.{note_to_data, transfer_witness, unshield_witness}
use obscura_network.Provers.Notes.{
  AreNotes, no_notes, one_note, nullifiers, note_amount, note_pubkey, note_to_data-commitment,
  same_asset-notes, sum_loop-from_0, commit_outputs-notes, nullifiers_of-notes,
}

-- The commitments stand at the indices among those of the pool, and the paths are those of the
-- indices.
pub data AreAt (pool : List Bytes) (paths : List (List Bytes))
    : List Bytes → List ℕ → List (List Bytes) → Type 0 where
  none_at : AreAt pool paths [] [] []
  one_at :
      (i : ℕ) (path : List Bytes) (commitments : List Bytes) (indices : List ℕ)
      (chosen : List (List Bytes))
      → i < length pool
      → get_elem? paths i ≡ some path
      → AreAt pool paths commitments indices chosen
      → AreAt pool paths (leaves_of pool i ∷ commitments) (i ∷ indices) (path ∷ chosen)

pub AreAt-length :
    (pool : List Bytes) (paths : List (List Bytes)) (commitments : List Bytes) (indices : List ℕ)
    (chosen : List (List Bytes))
    → AreAt pool paths commitments indices chosen
    → (length indices ≡ length commitments) × (length chosen ≡ length commitments)
AreAt-length pool paths commitments indices chosen none_at = (refl, refl)
AreAt-length pool paths commitments indices chosen (one_at i path cs is ps lt at more) =
    let (p, q) = AreAt-length pool paths cs is ps more in (omega arith, omega arith)

AreNotes-length :
    (env : Env) (asset_id : Bytes) (notes : List Note) (commitments : List Bytes)
    → AreNotes env asset_id notes commitments
    → (length notes ≡ length commitments) × (length (map note_to_data notes) ≡ length commitments)
AreNotes-length env asset_id notes commitments no_notes = (refl, refl)
AreNotes-length env asset_id notes commitments (one_note note c rest cs same made more) =
    let (p, q) = AreNotes-length env asset_id rest cs more in (omega arith, omega arith)

AreNotes-asset :
    (env : Env) (asset_id : Bytes) (note : Note) (notes : List Note) (commitments : List Bytes)
    → AreNotes env asset_id (note ∷ notes) commitments
    → note.asset_id ≡ asset_id
AreNotes-asset env asset_id note notes commitments (one_note n c rest cs same made more) = same

equal : (a b : ℕ) → a ≡ b → nat_eq a b ≡ true
equal a b e = (nat_eq_iff a b).1 e

verify-climb :
    (sha256 : Bytes → Bytes) (i : ℕ) (path : List Bytes) (root leaf : Bytes)
    → verify sha256 (record { leaf_index = i; siblings = path; root = root }) leaf ≡ true
    → bytes_eq (climb sha256 i leaf path) root ≡ true
unfolding verify
verify-climb sha256 i path root leaf h = ground arith

path_included :
    (sha256 : Bytes → Bytes) (pool : List Bytes) (paths : List (List Bytes)) (i : ℕ)
    (path : List Bytes)
    → length pool ≤ 2 ^ tree_depth
    → build_proof_paths sha256 pool ≡ some paths
    → i < length pool
    → get_elem? paths i ≡ some path
    → verify_merkle_inclusion sha256 (leaves_of pool i) i path (tree_root sha256 pool) ≡ true
unfolding verify_merkle_inclusion
path_included sha256 pool paths i path small built lt at =
    let (paths', path', built', at', ok_path) = build_proof_paths-verify sha256 pool i small lt in
    let same : paths' ≡ paths = some_cancel (sym built' ∙ built) in
    let same' : path' ≡ path =
      some_cancel (sym (subst (λ ps. get_elem? ps i ≡ some path') same at') ∙ at) in
    subst (λ p. bytes_eq (climb sha256 i (leaves_of pool i) p) (tree_root sha256 pool) ≡ true) same'
      (verify-climb sha256 i path' (tree_root sha256 pool) (leaves_of pool i) ok_path)

check_paths-AreAt :
    (env : Env) (asset_id : Bytes) (pool : List Bytes) (paths : List (List Bytes))
    (notes : List Note) (commitments : List Bytes) (indices : List ℕ) (chosen : List (List Bytes))
    → length pool ≤ 2 ^ tree_depth
    → build_proof_paths env.sha256 pool ≡ some paths
    → AreNotes env asset_id notes commitments
    → AreAt pool paths commitments indices chosen
    → check_paths env.sha256 (tree_root env.sha256 pool) (map note_to_data notes) indices chosen
      ≡ ok tt
unfolding check_paths
check_paths-AreAt env asset_id pool paths notes commitments indices chosen small built no_notes
      none_at =
    refl
check_paths-AreAt env asset_id pool paths notes commitments indices chosen small built
      (one_note note c rest cs same made more) (one_at i path cs' is ps lt at more') =
    rw
      (
        note_to_data-commitment env note (leaves_of pool i) made,
        path_included env.sha256 pool paths i path small built lt at,
      )
      (check_paths-AreAt env asset_id pool paths rest cs is ps small built more more')

-- For at most 2^20 commitments in the pool and their paths: if the spent notes have commitments
-- that stand at the indices, with the paths chosen there, the new notes have the commitments given,
-- all are of one asset, there is one of each at least, a key for each spent note, and the amounts
-- balance below 2^64, then `prove_transfer` makes a witness and the transfer program accepts it,
-- with the nullifiers of the keys and the spent commitments, the commitments of the new notes, and
-- the amount, the asset and the root of the pool.
pub transfer_accepted :
    (env : Env) (asset_id : Bytes) (pool : List Bytes) (paths : List (List Bytes))
    (keys : List Bytes) (first : Note) (inputs : List Note) (spent : List Bytes) (new : Note)
    (outputs : List Note) (created : List Bytes) (indices : List ℕ) (chosen : List (List Bytes))
    → length pool ≤ 2 ^ tree_depth
    → build_proof_paths env.sha256 pool ≡ some paths
    → AreNotes env asset_id (first ∷ inputs) spent
    → AreAt pool paths spent indices chosen
    → AreNotes env asset_id (new ∷ outputs) created
    → length keys ≡ length (first ∷ inputs)
    → total (map note_to_data (first ∷ inputs)) ≡ total (map note_to_data (new ∷ outputs))
    → total (map note_to_data (first ∷ inputs)) < u64_mod
    → (w : TransferWitness) × (transfer_witness keys
          (first ∷ inputs)
          (new ∷ outputs)
          (tree_root env.sha256 pool)
          indices
          chosen
        ≡ ok w)
      × (transfer_circuit env.sha256 w
          ≡ ok (record {
            nullifiers = nullifiers env keys spent;
            output_commitments = created;
            transfer_amount = total (map note_to_data (first ∷ inputs));
            asset_id = asset_id;
            merkle_root = tree_root env.sha256 pool;
          }))
unfolding transfer_witness transfer_circuit transfer_checks any_note note_to_data
transfer_accepted env asset_id pool paths keys first inputs spent new outputs created indices chosen
      small built olds at news keyed balanced fits =
    let (n, n') = AreNotes-length env asset_id (first ∷ inputs) spent olds in
    let (p, q) = AreAt-length pool paths spent indices chosen at in
    let w : TransferWitness = record {
      spending_keys = keys;
      inputs = map note_to_data (first ∷ inputs);
      outputs = map note_to_data (new ∷ outputs);
      merkle_root = tree_root env.sha256 pool;
      leaf_indices = indices;
      merkle_paths = chosen;
    } in
    (
      w,
      simp
          (
            equal (length indices) (length (first ∷ inputs)) (omega arith),
            equal (length chosen) (length (first ∷ inputs)) (omega arith),
          )
          refl,
      ap (transfer_checks env.sha256 w) (AreNotes-asset env asset_id first inputs spent olds)
          ∙ simp
              (
                equal (length (map note_to_data (first ∷ inputs))) (length keys) (omega arith),
                same_asset-notes env asset_id (first ∷ inputs) spent olds,
                same_asset-notes env asset_id (new ∷ outputs) created news,
                sum_loop-from_0 input_overflow (map note_to_data (first ∷ inputs)) fits,
                sum_loop-from_0 output_overflow (map note_to_data (new ∷ outputs)) (omega arith),
                balanced,
                equal (total (map note_to_data (new ∷ outputs)))
                    (total (map note_to_data (new ∷ outputs))) refl,
                equal (length indices) (length (map note_to_data (first ∷ inputs))) (omega arith),
                equal (length chosen) (length (map note_to_data (first ∷ inputs))) (omega arith),
                check_paths-AreAt env asset_id pool paths (first ∷ inputs) spent indices chosen
                    small built olds at,
                commit_outputs-notes env asset_id (new ∷ outputs) created news,
                nullifiers_of-notes env asset_id (first ∷ inputs) spent keys olds,
              )
              refl,
    )

-- For a note that `from_note` has a commitment for, the unshield program accepts what
-- `prove_unshield` gives it, with the nullifier of the key and that commitment, the amount and the
-- asset of the note.
pub unshield_accepted :
    (env : Env) (key : Bytes) (note : Note) (c : Bytes)
    → from_note env note ≡ ok c
    → unshield_circuit env.sha256 (unshield_witness key note)
      ≡ ok
          (record { nullifier = compute env key c; amount = note.amount; asset_id = note.asset_id })
unfolding unshield_circuit unshield_witness compute hash_nullifier note_to_data
unshield_accepted env key note c h =
    simp
      (
        lt→ltb 0 (note_to_data note).amount (note_amount env note c h),
        equal (length (note_to_data note).owner_pubkey) 32 (note_pubkey env note c h),
        note_to_data-commitment env note c h,
      )
      refl
