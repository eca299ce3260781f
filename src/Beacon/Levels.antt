-- ===== src/Beacon/Levels.antt =====
-- The loops over levels in beacon_api.rs, against the complete binary tree.
use native.Mathlib.Nat.{pow-suc}
use obscura_network.Prelude.{
  ℕ, zero, suc, ◌+◌, ◌*◌, ◌/◌, ◌^◌, ◌≤◌, ◌<◌, ◌≡◌, refl, sym, ap, ap₂, ◌∙◌, fun_ext, true, List, [],
  ◌∷◌, Bytes, length, ltb, arith, ok, ◌>>=◌,
}
use obscura_network.Merkle.{hash_pair, climb}
use obscura_network.Merkle.Insert.{shr-zero}
use obscura_network.Merkle.Tree.{node, node-zero, leaves_of}
use obscura_network.Merkle.Inclusion.{All32, siblings_of, sibling, climb-siblings_of}
use obscura_network.Merkle.Verify.{length-siblings_of}
use obscura_network.Sanctions.Power.{next_power_of_two}
use obscura_network.Sanctions.Levels.{
  power_pos, prefix_of, length-prefix_of, get-prefix_of, sibling_lt,
}
use obscura_network.Helios.Ssz.{sha256_pair, verify_merkle_branch}
use obscura_network.Helios.Branch.{verify_merkle_branch_iff}
use obscura_network.Beacon.Ssz.{
  next_level, root_loop, branch_rounds, merkle_root_vec, merkle_branch_32,
}

module _ (sha256 : Bytes → Bytes) where
  next_level-prefix_of :
      (f : ℕ → Bytes) (n : ℕ)
      → next_level sha256 (prefix_of f (2 * n))
        ≡ ok (prefix_of (λ i. hash_pair sha256 (f (2 * i)) (f (2 * i + 1))) n)
  unfolding next_level hash_pair sha256_pair
  next_level-prefix_of f zero = refl
  next_level-prefix_of f (suc n) =
      ap (λ k. next_level sha256 (prefix_of f k)) {x = 2 * suc n} {y = suc (suc (2 * n))}
        (omega arith)
      ∙ ap (λ r. r >>= λ next. ok (hash_pair sha256 (f 0) (f 1) ∷ next))
          (next_level-prefix_of (λ i. f (suc (suc i))) n)
      ∙ ap (λ g. ok (hash_pair sha256 (f 0) (f 1) ∷ prefix_of g n))
          (fun_ext λ i.
            ap₂ (λ j k. hash_pair sha256 (f j) (f k)) {x = suc (suc (2 * i))} {y = 2 * suc i}
              (omega arith) (omega arith))

  module _ (leaves : ℕ → Bytes) where
    next_level-node :
        (level rounds : ℕ)
        → next_level sha256 (prefix_of (node sha256 leaves level) (2 ^ suc rounds))
          ≡ ok (prefix_of (node sha256 leaves (suc level)) (2 ^ rounds))
    unfolding node
    next_level-node level rounds =
        ap (λ k. next_level sha256 (prefix_of (node sha256 leaves level) k)) {x = 2 ^ suc rounds}
          {y = 2 * 2 ^ rounds} (omega (arith, pow-suc 2 rounds))
        ∙ next_level-prefix_of (node sha256 leaves level) (2 ^ rounds)

    -- With a round for each level above, the loop ends at the root.
    pub root_loop-node :
        (fuel level rounds : ℕ)
        → rounds ≤ fuel
        → root_loop sha256 fuel (prefix_of (node sha256 leaves level) (2 ^ rounds))
          ≡ ok (node sha256 leaves (level + rounds) 0)
    unfolding root_loop
    root_loop-node zero level zero h = ap (λ l. ok (node sha256 leaves l 0)) (omega arith)
    root_loop-node zero level (suc rounds) h = absurd (omega arith)
    root_loop-node (suc fuel) level zero h = ap (λ l. ok (node sha256 leaves l 0)) (omega arith)
    root_loop-node (suc fuel) level (suc rounds) h =
        let many : ltb 1 (length (prefix_of (node sha256 leaves level) (2 ^ suc rounds))) ≡ true =
          ground (
            arith,
            length-prefix_of (node sha256 leaves level) (2 ^ suc rounds),
            pow-suc 2 rounds,
            power_pos rounds,
          ) in
        rw
          (many, next_level-node level rounds, root_loop-node fuel (suc level) rounds (omega arith))
          (ap (λ l. ok (node sha256 leaves l 0)) (omega arith))

    pub branch_rounds-siblings_of :
        (rounds level idx : ℕ)
        → idx < 2 ^ rounds
        → branch_rounds sha256 rounds (prefix_of (node sha256 leaves level) (2 ^ rounds)) idx
          ≡ ok (siblings_of sha256 leaves rounds level idx)
    unfolding branch_rounds siblings_of
    branch_rounds-siblings_of zero level idx h = refl
    branch_rounds-siblings_of (suc rounds) level idx h =
        rw
          (
            get-prefix_of (node sha256 leaves level) (2 ^ suc rounds) (sibling idx)
                (sibling_lt rounds idx h),
            next_level-node level rounds,
            branch_rounds-siblings_of rounds (suc level) (idx / 2)
                (omega (arith, pow-suc 2 rounds)),
          )
          refl

-- A list is the values found at its places.
list-prefix_of : (l : List Bytes) → l ≡ prefix_of (leaves_of l) (length l)
list-prefix_of [] = refl
list-prefix_of (x ∷ l) = ap (λ m. x ∷ m) (list-prefix_of l)

module _ (sha256 : Bytes → Bytes) (l : List Bytes) (full : length l ≡ 32) where
  level_0 : l ≡ prefix_of (node sha256 (leaves_of l) 0) (2 ^ 5)
  unfolding node
  level_0 = list-prefix_of l ∙ ap (prefix_of (leaves_of l)) full

  pub merkle_root_vec-node : merkle_root_vec sha256 l ≡ ok (node sha256 (leaves_of l) 5 0)
  unfolding merkle_root_vec next_power_of_two
  merkle_root_vec-node =
      rw full (
        ap (root_loop sha256 32) level_0 ∙ root_loop-node sha256 (leaves_of l) 32 0 5 (omega arith))

  pub merkle_branch_32-siblings_of :
      (idx : ℕ)
      → idx < 32
      → merkle_branch_32 sha256 l idx ≡ ok (siblings_of sha256 (leaves_of l) 5 0 idx)
  unfolding merkle_branch_32
  merkle_branch_32-siblings_of idx h =
      ap (λ m. branch_rounds sha256 5 m idx) level_0
      ∙ branch_rounds-siblings_of sha256 (leaves_of l) 5 0 idx h

  pub siblings_of-verify :
      (idx : ℕ)
      → idx < 32
      → verify_merkle_branch sha256
          (leaves_of l idx)
          (siblings_of sha256 (leaves_of l) 5 0 idx)
          5
          idx
          (node sha256 (leaves_of l) 5 0)
        ≡ true
  siblings_of-verify idx h = (verify_merkle_branch_iff sha256 _ _ 5 idx _).1 (
    length-siblings_of sha256 (leaves_of l) 5 0 idx,
    ap (λ c. climb sha256 idx c (siblings_of sha256 (leaves_of l) 5 0 idx))
          (sym (node-zero sha256 (leaves_of l) idx))
        ∙ (climb-siblings_of sha256 (leaves_of l) 5 0 5 idx refl
            ∙ ap (node sha256 (leaves_of l) 5) (shr-zero 5 idx h)),
  )

module _ (sha256 : Bytes → Bytes) (sized : (x : Bytes) → length (sha256 x) ≡ 32)
    (leaves : ℕ → Bytes) where
  pub length-node_above : (level i : ℕ) → length (node sha256 leaves (suc level) i) ≡ 32
  unfolding node hash_pair
  length-node_above level i = sized _

  All32-above : (rounds level i : ℕ) → All32 (siblings_of sha256 leaves rounds (suc level) i)
  unfolding siblings_of
  All32-above zero level i = tt
  All32-above (suc rounds) level i =
      (length-node_above level (sibling i), All32-above rounds (suc level) (i / 2))

  -- Of the leaves a path has one only, the neighbour.
  pub All32-path :
      (rounds i : ℕ)
      → length (leaves (sibling i)) ≡ 32
      → All32 (siblings_of sha256 leaves (suc rounds) 0 i)
  unfolding siblings_of node
  All32-path rounds i h = (h, All32-above rounds 0 (i / 2))

-- Of 32 leaves, the branch that is made for a place is accepted by the light client's program for
-- the leaf at that place, against the root that is made of the leaves.
pub merkle_branch_32-verify :
    (sha256 : Bytes → Bytes) (l : List Bytes) (idx : ℕ)
    → length l ≡ 32
    → idx < 32
    → (root : Bytes) × (branch : List Bytes) × (merkle_root_vec sha256 l ≡ ok root)
      × (merkle_branch_32 sha256 l idx ≡ ok branch)
      × (verify_merkle_branch sha256 (leaves_of l idx) branch 5 idx root ≡ true)
merkle_branch_32-verify sha256 l idx full h = (
  node sha256 (leaves_of l) 5 0,
  siblings_of sha256 (leaves_of l) 5 0 idx,
  merkle_root_vec-node sha256 l full,
  merkle_branch_32-siblings_of sha256 l full idx h,
  siblings_of-verify sha256 l full idx h,
)
