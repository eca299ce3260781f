-- ===== src/Privacy/Tree.antt =====
-- The tree that the module keeps, and its ring buffer of roots.
use obscura_network.Prelude.{
  ℕ, ◌+◌, ◌%◌, ◌^◌, ◌<◌, ◌≤◌, ◌≡◌, refl, sym, ap, ◌∙◌, inl, inr, true, Option, some, List, [], ◌∷◌,
  ◌++◌, Bytes, StateMap, insert_self, insert_ne, ℕ_Eq, Bytes_Eq, unwrap_or, nat_eq, length,
  length-append, take, take_all, take-append, ltb→lt, Bool-cases, arith, subst,
}
use obscura_network.Merkle.{tree_depth, roots_history_size, compute_insert, persist}
use obscura_network.Merkle.Tree.{tree_root}
use obscura_network.Merkle.Insert.{filled_at}
use obscura_network.Merkle.Append.{
  IsFilled, compute_insert-tree_root, compute_insert-IsFilled, IsFilled-empty, tree_root-empty,
}
use obscura_network.Privacy.Types.{Env}
use obscura_network.Privacy.State.{State, blank, genesis, inserted, has_room}

-- The fields of the state that the insertion reads and writes.
pub record TreeFields : Type 0 where
  pub merkle_root : Option Bytes
  pub merkle_next_index : Option ℕ
  pub merkle_filled_subtrees : StateMap ℕ Bytes
  pub merkle_roots : StateMap ℕ Bytes
  pub merkle_roots_count : Option ℕ

abbrev pub tree_fields : State → TreeFields
tree_fields s = record {
  merkle_root = s.merkle_root;
  merkle_next_index = s.merkle_next_index;
  merkle_filled_subtrees = s.merkle_filled_subtrees;
  merkle_roots = s.merkle_roots;
  merkle_roots_count = s.merkle_roots_count;
}

-- They hold the tree over `l`.
pub record IsTree (env : Env) (l : List Bytes) (s : TreeFields) : Type 0 where
  pub next : s.merkle_next_index ≡ some (length l)
  pub fits : length l ≤ 2 ^ tree_depth
  pub filled : IsFilled env.sha256 l s.merkle_filled_subtrees
  pub root : s.merkle_root ≡ some (tree_root env.sha256 l)
  pub count : s.merkle_roots_count ≡ some (length l)
  pub ring :
      (k : ℕ)
      → k < length l
      → length l ≤ k + roots_history_size
      → s.merkle_roots (k % roots_history_size) ≡ some (tree_root env.sha256 (take (k + 1) l))

abbrev pub HasTree : Env → List Bytes → State → Type 0
HasTree env l s = IsTree env l (tree_fields s)

module _ (env : Env) where
  pub HasTree-genesis : HasTree env [] (genesis env blank)
  unfolding genesis
  HasTree-genesis = record {
    next = refl;
    fits = omega arith;
    filled = IsFilled-empty env.sha256 (genesis env blank).merkle_filled_subtrees;
    root = ap some (sym (tree_root-empty env.sha256));
    count = refl;
    ring = λ k h. absurd (omega arith);
  }

  module _ (l : List Bytes) (c : Bytes) (s : State) (t : HasTree env l s)
      (room : has_room s ≡ true) where
    next_index : unwrap_or s.merkle_next_index 0 ≡ length l
    next_index = ap (λ (o : Option ℕ). unwrap_or o 0) t.next

    roots_count : unwrap_or s.merkle_roots_count 0 ≡ length l
    roots_count = ap (λ (o : Option ℕ). unwrap_or o 0) t.count

    below : length l < 2 ^ tree_depth
    unfolding has_room
    below = omega (arith, next_index, ltb→lt _ _ room)

    grown : length (l ++ c ∷ []) ≡ length l + 1
    grown = length-append l (c ∷ [])

    -- The root that the insertion computes.
    new_root :
        (compute_insert env.sha256 c
          (unwrap_or s.merkle_next_index 0)
          (filled_at env.sha256 s.merkle_filled_subtrees)).0
        ≡ tree_root env.sha256 (l ++ c ∷ [])
    new_root =
        ap (λ i. (compute_insert env.sha256 c i (filled_at env.sha256 s.merkle_filled_subtrees)).0)
          next_index
        ∙ compute_insert-tree_root env.sha256 l c s.merkle_filled_subtrees below t.filled

    ring-inserted :
        (k : ℕ)
        → k < length (l ++ c ∷ [])
        → length (l ++ c ∷ []) ≤ k + roots_history_size
        → (inserted env c s).merkle_roots (k % roots_history_size)
          ≡ some (tree_root env.sha256 (take (k + 1) (l ++ c ∷ [])))
    unfolding inserted
    ring-inserted k lt le = elim (Bool-cases (nat_eq k (length l))) [
      | inl last ↦
          let e : k ≡ length l = ground arith in
          ap (inserted env c s).merkle_roots {x = k % roots_history_size}
            {y = unwrap_or s.merkle_roots_count 0 % roots_history_size}
            (ap (λ j. j % roots_history_size) (e ∙ sym roots_count))
          ∙ (insert_self s.merkle_roots (unwrap_or s.merkle_roots_count 0 % roots_history_size) _
              ∙ ap some (
                  new_root
                  ∙ ap (tree_root env.sha256)
                      (sym (take_all (k + 1) (l ++ c ∷ []) (omega (arith, grown, e))))))
      | inr old ↦
          let lt' : k < length l = ground (arith, grown) in
          insert_ne s.merkle_roots (unwrap_or s.merkle_roots_count 0 % roots_history_size)
            (k % roots_history_size) _ (omega (arith, roots_count, grown))
          ∙ (t.ring k lt' (omega (arith, grown))
              ∙ ap some
                  (ap (tree_root env.sha256) (sym (take-append (k + 1) l (c ∷ []) (omega arith)))))
    ]

    -- If the state holds the tree over `l`, with the roots of the last 100 insertions, and has room,
    -- the insertion leaves a state that holds the tree over `l` with the new leaf at its end.
    pub HasTree-inserted : HasTree env (l ++ c ∷ []) (inserted env c s)
    unfolding inserted
    HasTree-inserted = record {
      next = ap some (omega (arith, next_index, grown, below));
      fits = omega (arith, grown, below);
      filled =
          subst
            (λ i. IsFilled env.sha256 (l ++ c ∷ []) (
              persist s.merkle_filled_subtrees
                (compute_insert env.sha256 c i (filled_at env.sha256 s.merkle_filled_subtrees)).1))
            (sym next_index)
            (compute_insert-IsFilled env.sha256 l c s.merkle_filled_subtrees t.filled);
      root = ap some new_root;
      count = ap some (omega (arith, roots_count, grown, below));
      ring = ring-inserted;
    }
