-- ===== src/Privacy/Pool.antt =====
-- The tree in the state and the list of commitments, over the calls of the pool.
use obscura_network.Prelude.{◌≡◌, true, some, Bytes, length, Bool-cases, inl, inr}
use obscura_network.Merkle.Tree.{tree_root}
use obscura_network.Privacy.Types.{Env}
use obscura_network.Privacy.Zk.{is_empty}
use obscura_network.Privacy.State.{State, blank, genesis, inserted, has_room}
use obscura_network.Privacy.Tree.{HasTree, HasTree-genesis, HasTree-inserted}
use obscura_network.Privacy.Handlers.{
  push_commitment, store_note, add_supply, remove_supply, mark_spent, count_transfer,
}
use obscura_network.Privacy.Success.{with_leaf}
use obscura_network.Privacy.Keeps.{IsKept, Later, Later-kept}

abbrev pub IsPool : Env → State → Type 0
IsPool env s = HasTree env s.commitments s

module _ (env : Env) where
  pub IsPool-genesis : IsPool env (genesis env blank)
  unfolding genesis
  IsPool-genesis = HasTree-genesis env

  pub IsPool-with_leaf :
      (c : Bytes) (s : State) → has_room s ≡ true → IsPool env s → IsPool env (with_leaf env c s)
  unfolding with_leaf push_commitment has_room inserted
  IsPool-with_leaf c s room p = HasTree-inserted env s.commitments c (push_commitment c s) p room

  store_note-IsPool : (c e : Bytes) (s : State) → IsPool env s → IsPool env (store_note env c e s)
  unfolding store_note
  store_note-IsPool c e s p = elim (Bool-cases (is_empty e)) [
    | inl b ↦ rw (b, store_note) p
    | inr b ↦ rw (b, store_note) p
  ]

  pub IsPool-kept : IsKept env (IsPool env)
  unfolding add_supply remove_supply mark_spent count_transfer
  IsPool-kept = record {
    by_leaf = IsPool-with_leaf;
    by_note = store_note-IsPool;
    by_add = λ a n s p. p;
    by_remove = λ a n s p. p;
    by_mark = λ n s p. p;
    by_count = λ n s p. p;
    by_root = λ r s p. p;
  }

  -- After any calls from genesis, the stored root is that of the tree over all commitments, in the
  -- order in which they were added.
  pub merkle_root-Later :
      (s : State)
      → Later env (genesis env blank) s
      → (s.merkle_root ≡ some (tree_root env.sha256 s.commitments))
        × (s.merkle_next_index ≡ some (length s.commitments))
  merkle_root-Later s r =
      let p = Later-kept env (IsPool env) IsPool-kept r IsPool-genesis in (p.root, p.next)
