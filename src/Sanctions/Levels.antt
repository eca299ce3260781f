-- ===== src/Sanctions/Levels.antt =====
-- The levels that `build` stores, and the paths read off them, beside the complete tree.
use native.Mathlib.Nat.{pow-suc, pow-le-pow_right}
use obscura_network.Prelude.{
  ℕ, zero, suc, ◌+◌, ◌*◌, ◌/◌, ◌^◌, ◌≤◌, ◌<◌, ◌≡◌, refl, ap, ap₂, ◌∙◌, fun_ext, true, some, List,
  [], ◌∷◌, Bytes, map, length, get_elem?, get_or, ltb, arith, ok, ◌>>=◌,
}
use obscura_network.Merkle.{hash_pair}
use obscura_network.Merkle.Tree.{node}
use obscura_network.Merkle.Inclusion.{siblings_of, sibling}
use obscura_network.Merkle.Binding.{tagged}
use obscura_network.Sanctions.Oracle.{
  hash_node, node_tag, pair_up, levels_loop, last_first, proof_loop,
}

pub power_pos : (d : ℕ) → 0 < 2 ^ d
power_pos d = pow-le-pow_right {n = 2} (omega arith) {i = 0} {j = d} (omega arith)

-- The first `n` values of a sequence.
abbrev pub prefix_of : (ℕ → Bytes) → ℕ → List Bytes
prefix_of f zero = []
prefix_of f (suc n) = f 0 ∷ prefix_of (λ i. f (suc i)) n

pub length-prefix_of : (f : ℕ → Bytes) (n : ℕ) → length (prefix_of f n) ≡ n
length-prefix_of f zero = refl
length-prefix_of f (suc n) = ap suc (length-prefix_of (λ i. f (suc i)) n)

pub get-prefix_of : (f : ℕ → Bytes) (n i : ℕ) → i < n → get_elem? (prefix_of f n) i ≡ some (f i)
get-prefix_of f zero i h = absurd (omega arith)
get-prefix_of f (suc n) zero h = refl
get-prefix_of f (suc n) (suc i) h = get-prefix_of (λ j. f (suc j)) n i (omega arith)

-- A list is the values found at its places.
pub prefix_of-get_or :
    (l : List Bytes) (d : Bytes) (g : Bytes → Bytes)
    → map g l ≡ prefix_of (λ i. g (get_or l i d)) (length l)
prefix_of-get_or [] d g = refl
prefix_of-get_or (x ∷ l) d g = ap (λ m. g x ∷ m) (prefix_of-get_or l d g)

pub sibling_lt : (rounds idx : ℕ) → idx < 2 ^ suc rounds → sibling idx < 2 ^ suc rounds
sibling_lt rounds idx h = ground (arith, pow-suc 2 rounds)

module _ (sha256 : Bytes → Bytes) where
  -- The hash of two nodes, a tag before them.
  abbrev pub node_hash : Bytes → Bytes
  node_hash x = tagged sha256 node_tag x

  pair_up-prefix_of :
      (f : ℕ → Bytes) (n : ℕ)
      → pair_up sha256 (prefix_of f (2 * n))
        ≡ ok (prefix_of (λ i. hash_pair node_hash (f (2 * i)) (f (2 * i + 1))) n)
  unfolding pair_up hash_node hash_pair
  pair_up-prefix_of f zero = refl
  pair_up-prefix_of f (suc n) =
      ap (λ k. pair_up sha256 (prefix_of f k)) {x = 2 * suc n} {y = suc (suc (2 * n))} (omega arith)
      ∙ ap (λ r. r >>= λ next. ok (hash_pair node_hash (f 0) (f 1) ∷ next))
          (pair_up-prefix_of (λ i. f (suc (suc i))) n)
      ∙ ap (λ g. ok (hash_pair node_hash (f 0) (f 1) ∷ prefix_of g n))
          (fun_ext λ i.
            ap₂ (λ j k. hash_pair node_hash (f j) (f k)) {x = suc (suc (2 * i))} {y = 2 * suc i}
              (omega arith) (omega arith))

  module _ (leaves : ℕ → Bytes) where
    -- A level of the complete tree of `2 ^ rounds` nodes, and those above it.
    abbrev pub tree_levels : ℕ → ℕ → List (List Bytes)
    tree_levels level zero = prefix_of (node node_hash leaves level) 1 ∷ []
    tree_levels level (suc rounds) =
        prefix_of (node node_hash leaves level) (2 ^ suc rounds) ∷ tree_levels (suc level) rounds

    pair_up-node :
        (level rounds : ℕ)
        → pair_up sha256 (prefix_of (node node_hash leaves level) (2 ^ suc rounds))
          ≡ ok (prefix_of (node node_hash leaves (suc level)) (2 ^ rounds))
    unfolding node
    pair_up-node level rounds =
        ap (λ k. pair_up sha256 (prefix_of (node node_hash leaves level) k)) {x = 2 ^ suc rounds}
          {y = 2 * 2 ^ rounds} (omega (arith, pow-suc 2 rounds))
        ∙ pair_up-prefix_of (node node_hash leaves level) (2 ^ rounds)

    sibling-node :
        (level rounds idx : ℕ)
        → idx < 2 ^ suc rounds
        → get_elem? (prefix_of (node node_hash leaves level) (2 ^ suc rounds)) (sibling idx)
          ≡ some (node node_hash leaves level (sibling idx))
    sibling-node level rounds idx h =
        get-prefix_of (node node_hash leaves level) (2 ^ suc rounds) (sibling idx)
          (sibling_lt rounds idx h)

    -- The loop stores the complete tree when it may run for as many rounds as the tree is high.
    pub levels_loop-tree_levels :
        (fuel level rounds : ℕ)
        → rounds ≤ fuel
        → levels_loop fuel sha256 (prefix_of (node node_hash leaves level) (2 ^ rounds))
          ≡ ok (tree_levels level rounds)
    unfolding levels_loop
    levels_loop-tree_levels zero level zero h = refl
    levels_loop-tree_levels zero level (suc rounds) h = absurd (omega arith)
    levels_loop-tree_levels (suc fuel) level zero h = refl
    levels_loop-tree_levels (suc fuel) level (suc rounds) h =
        let many : ltb 1 (length (prefix_of (node node_hash leaves level) (2 ^ suc rounds)))
            ≡ true =
          ground (
            arith,
            length-prefix_of (node node_hash leaves level) (2 ^ suc rounds),
            pow-suc 2 rounds,
            power_pos rounds,
          ) in
        rw
          (
            many,
            pair_up-node level rounds,
            levels_loop-tree_levels fuel (suc level) rounds (omega arith),
          )
          refl

    pub last_first-tree_levels :
        (level rounds : ℕ)
        → last_first (tree_levels level rounds) ≡ some (node node_hash leaves (level + rounds) 0)
    unfolding last_first
    last_first-tree_levels level zero = ap (λ l. some (node node_hash leaves l 0)) (omega arith)
    last_first-tree_levels level (suc zero) =
        ap (λ l. some (node node_hash leaves l 0)) (omega arith)
    last_first-tree_levels level (suc (suc rounds)) =
        last_first-tree_levels (suc level) (suc rounds)
        ∙ ap (λ l. some (node node_hash leaves l 0)) (omega arith)

    pub proof_loop-tree_levels :
        (rounds level idx : ℕ)
        → idx < 2 ^ rounds
        → proof_loop idx (tree_levels level rounds)
          ≡ ok (siblings_of node_hash leaves rounds level idx)
    unfolding proof_loop siblings_of
    proof_loop-tree_levels zero level idx h = refl
    proof_loop-tree_levels (suc zero) level idx h = rw (sibling-node level 0 idx h) refl
    proof_loop-tree_levels (suc (suc rounds)) level idx h =
        rw
          (
            sibling-node level (suc rounds) idx h,
            proof_loop-tree_levels (suc rounds) (suc level) (idx / 2)
                (omega (arith, pow-suc 2 (suc rounds))),
          )
          refl
