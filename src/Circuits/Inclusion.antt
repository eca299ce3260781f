-- ===== src/Circuits/Inclusion.antt =====
-- The inputs of an accepted transfer and the leaves of the tree.
use obscura_network.Prelude.{
  ℕ, ◌%◌, ◌^◌, ◌≡◌, refl, subst, ◌⊎◌, inl, inr, true, List, [], ◌∷◌, Bytes, bytes_eq_sound,
  Bytes_Eq, length, arith, ok,
}
use obscura_network.Merkle.{MerkleProof, tree_depth}
use obscura_network.Merkle.Tree.{tree_root, leaves_of}
use obscura_network.Merkle.Inclusion.{All32, Collision}
use obscura_network.Merkle.Verify.{verify-true, verify_sound}
use obscura_network.Circuits.Types.{NoteData, TransferWitness, TransferPublicOutputs, hash_note}
use obscura_network.Circuits.Transfer.{
  verify_merkle_inclusion, check_paths, transfer_checks, transfer_circuit,
}
use obscura_network.Circuits.Balance.{transfer_circuit-ok}

-- Each path has one sibling of 32 bytes for each level.
abbrev pub FullPaths : List (List Bytes) → Type 0
FullPaths [] = Unit {0}
FullPaths (path ∷ paths) = (length path ≡ tree_depth) × All32 path × FullPaths paths

module _ (sha256 : Bytes → Bytes) (l : List Bytes) where
  -- There is one index for each note, and its commitment is the leaf there, taken modulo the number
  -- of leaves.
  abbrev pub AreLeaves : List NoteData → List ℕ → Type 0
  AreLeaves [] [] = Unit {0}
  AreLeaves [] (index ∷ indices) = ⊥
  AreLeaves (note ∷ notes) [] = ⊥
  AreLeaves (note ∷ notes) (index ∷ indices) =
      (hash_note sha256 note ≡ leaves_of l (index % 2 ^ tree_depth)) × AreLeaves notes indices

  module _ (sized : (x : Bytes) → length (sha256 x) ≡ 32) (leaves_sized : All32 l) where
    verify_merkle_inclusion-leaf :
        (note : NoteData) (index : ℕ) (path : List Bytes)
        → length path ≡ tree_depth
        → All32 path
        → verify_merkle_inclusion sha256 (hash_note sha256 note) index path (tree_root sha256 l)
          ≡ true
        → (hash_note sha256 note ≡ leaves_of l (index % 2 ^ tree_depth)) ⊎ Collision sha256
    unfolding verify_merkle_inclusion hash_note
    verify_merkle_inclusion-leaf note index path full a h =
        let proof : MerkleProof = record {
          leaf_index = index;
          siblings = path;
          root = tree_root sha256 l;
        } in
        verify_sound sha256 sized l proof (hash_note sha256 note) leaves_sized (sized _) a refl
          (verify-true sha256 proof (hash_note sha256 note) full (bytes_eq_sound _ _ h))

    check_paths-AreLeaves :
        (notes : List NoteData) (indices : List ℕ) (paths : List (List Bytes))
        → length indices ≡ length notes
        → length paths ≡ length notes
        → FullPaths paths
        → check_paths sha256 (tree_root sha256 l) notes indices paths ≡ ok tt
        → AreLeaves notes indices ⊎ Collision sha256
    unfolding check_paths
    check_paths-AreLeaves [] [] paths i p f h = inl tt
    check_paths-AreLeaves [] (index ∷ indices) paths i p f h = absurd (omega arith)
    check_paths-AreLeaves (note ∷ notes) [] paths i p f h = absurd (omega arith)
    check_paths-AreLeaves (note ∷ notes) (index ∷ indices) [] i p f h = absurd (omega arith)
    check_paths-AreLeaves (note ∷ notes) (index ∷ indices) (path ∷ paths) i p (full, a, f) h =
        elim (verify_merkle_inclusion-leaf note index path full a (ground arith)) [
          | inl leaf ↦
              elim (check_paths-AreLeaves notes indices paths (omega arith) (omega arith) f
                (ground arith)) [ inl rest ↦ inl (leaf, rest) | inr c ↦ inr c ]
          | inr c ↦ inr c
        ]

transfer_checks-paths :
    (sha256 : Bytes → Bytes) (witness : TransferWitness) (asset_id : Bytes)
    (out : TransferPublicOutputs)
    → transfer_checks sha256 witness asset_id ≡ ok out
    → (length witness.leaf_indices ≡ length witness.inputs)
      × (length witness.merkle_paths ≡ length witness.inputs)
      × (check_paths sha256 witness.merkle_root witness.inputs witness.leaf_indices
            witness.merkle_paths
          ≡ ok tt)
unfolding transfer_checks
transfer_checks-paths sha256 witness asset_id out h = ground arith

-- For a hash of 32 bytes, if the transfer program accepts a witness whose root is that of the tree
-- over leaves of 32 bytes, and whose paths have 20 siblings of 32 bytes each, then there is one index
-- for each input, and the commitment of the input is the leaf there, taken modulo 2^20, or the hash
-- has a collision.
pub transfer_circuit-AreLeaves :
    (sha256 : Bytes → Bytes) (sized : (x : Bytes) → length (sha256 x) ≡ 32) (l : List Bytes)
    (witness : TransferWitness) (out : TransferPublicOutputs)
    → All32 l
    → FullPaths witness.merkle_paths
    → witness.merkle_root ≡ tree_root sha256 l
    → transfer_circuit sha256 witness ≡ ok out
    → AreLeaves sha256 l witness.inputs witness.leaf_indices ⊎ Collision sha256
transfer_circuit-AreLeaves sha256 sized l witness out a f root h =
    let (asset_id, checked) = transfer_circuit-ok sha256 witness out h in
    let (indices, paths, included) = transfer_checks-paths sha256 witness asset_id out checked in
    check_paths-AreLeaves sha256 l sized a witness.inputs witness.leaf_indices witness.merkle_paths
      indices paths f
      (subst
        (λ r. check_paths sha256 r witness.inputs witness.leaf_indices witness.merkle_paths ≡ ok tt)
        root included)
