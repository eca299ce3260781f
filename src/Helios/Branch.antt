-- ===== src/Helios/Branch.antt =====
-- The two verifications of Merkle paths: that of the light client, by bits of the index, and
-- that of the pool, by halving it.
use native.Mathlib.Nat.{pow-suc, div-div-eq-div-mul}
use obscura_network.Prelude.{
  ℕ, suc, ◌+◌, ◌/◌, ◌^◌, ◌≡◌, ◌↔◌, refl, sym, ap, ap₂, ◌∙◌, true, List, [], ◌∷◌, Bytes,
  bytes_eq_iff, Bytes_Eq, length, arith,
}
use obscura_network.Merkle.{climb, hash_step, hash_pair}
use obscura_network.Helios.Ssz.{sha256_pair, branch_loop, verify_merkle_branch}

next_bits : (x i : ℕ) → x / 2 ^ (i + 1) ≡ x / 2 ^ i / 2
next_bits x i =
    ap (λ k. x / 2 ^ k) {x = i + 1} {y = suc i} (omega arith)
    ∙ (ap (λ d. x / d) (pow-suc 2 i) ∙ sym (div-div-eq-div-mul x (2 ^ i) 2))

branch_loop-climb :
    (sha256 : Bytes → Bytes) (i index : ℕ) (value : Bytes) (branch : List Bytes)
    → branch_loop sha256 i index value branch ≡ climb sha256 (index / 2 ^ i) value branch
unfolding branch_loop climb hash_step hash_pair sha256_pair
branch_loop-climb sha256 i index value [] = refl
branch_loop-climb sha256 i index value (sibling ∷ branch) =
    branch_loop-climb sha256 (i + 1) index _ branch
    ∙ ap₂ (λ j v. climb sha256 j v branch) (next_bits index i) (ground arith)

-- `verify_merkle_branch` accepts exactly the branches of the given length that lead to the root by
-- the loop of the pool's `MerkleProof::verify`.
pub verify_merkle_branch_iff :
    (sha256 : Bytes → Bytes) (leaf : Bytes) (branch : List Bytes) (depth index : ℕ) (root : Bytes)
    → (verify_merkle_branch sha256 leaf branch depth index root ≡ true)
      ↔ ((length branch ≡ depth) × (climb sha256 index leaf branch ≡ root))
unfolding verify_merkle_branch
verify_merkle_branch_iff sha256 leaf branch depth index root =
    let same : branch_loop sha256 0 index leaf branch ≡ climb sha256 index leaf branch =
      branch_loop-climb sha256 0 index leaf branch
      ∙ ap (λ j. climb sha256 j leaf branch) (omega arith) in
    ground (arith, same, bytes_eq_iff (branch_loop sha256 0 index leaf branch) root)
