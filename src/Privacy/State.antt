-- ===== src/Privacy/State.antt =====
-- crates/privacy/src/lib.rs: the state of the module, its genesis, and the tree that it keeps.
use obscura_network.Prelude.{
  ℕ, zero, suc, ◌+◌, ◌%◌, ◌^◌, Bool, false, ◌||◌, Option, none, some, List, [], Bytes, StateMap,
  empty_map, insert, ◌==◌, ℕ_Eq, Bytes_Eq, unwrap_or, nat_eq, ltb, min, wrapping_add, if◌then◌else◌,
}
use obscura_network.Prelude.Exec.{Exec, ◌>>◌, require, modify}
use obscura_network.Merkle.{
  tree_depth, roots_history_size, zero_value, empty_root, compute_insert, persist,
}
use obscura_network.Privacy.Types.{Env, Error, tree_full}

pub record State : Type 0 where
  pub commitments : List Bytes
  pub merkle_root : Option Bytes
  pub merkle_next_index : Option ℕ
  pub merkle_filled_subtrees : StateMap ℕ Bytes
  pub merkle_roots : StateMap ℕ Bytes
  pub merkle_roots_count : Option ℕ
  pub nullifiers : StateMap Bytes Bool
  pub shielded_supply : StateMap Bytes ℕ
  pub compliance_tx_count : Option ℕ
  pub compliance_total_volume : Option ℕ
  pub sanctions_root : Option Bytes
  pub sanctions_oracle : Option Bytes
  pub encrypted_notes : StateMap Bytes Bytes

-- Before genesis nothing is set.
abbrev pub blank : State
blank = record {
  commitments = [];
  merkle_root = none;
  merkle_next_index = none;
  merkle_filled_subtrees = empty_map;
  merkle_roots = empty_map;
  merkle_roots_count = none;
  nullifiers = empty_map;
  shielded_supply = empty_map;
  compliance_tx_count = none;
  compliance_total_volume = none;
  sanctions_root = none;
  sanctions_oracle = none;
  encrypted_notes = empty_map;
}

-- `for level in 0..TREE_DEPTH`, `rounds` of them from `level` on
genesis_subtrees : (Bytes → Bytes) → ℕ → ℕ → StateMap ℕ Bytes → StateMap ℕ Bytes
genesis_subtrees sha256 zero level filled = filled
genesis_subtrees sha256 (suc rounds) level filled =
    genesis_subtrees sha256 rounds (level + 1) (insert filled level (zero_value sha256 level))

unfoldable pub genesis : Env → State → State
unfolding genesis_subtrees
genesis env s = record s {
  merkle_filled_subtrees = genesis_subtrees env.sha256 tree_depth 0 s.merkle_filled_subtrees;
  merkle_root = some (empty_root env.sha256);
  merkle_next_index = some 0;
  merkle_roots_count = some 0;
  compliance_tx_count = some 0;
  compliance_total_volume = some 0;
}

-- The writes of `insert_commitment`, once the tree is known to have room. `filled_cache[level]` is
-- read for levels below the depth alone, so it is the stored value or the zero value.
unfoldable pub inserted : Env → Bytes → State → State
inserted env commitment s =
    let next_index = unwrap_or s.merkle_next_index 0 in
    let (new_root, updates) =
      compute_insert env.sha256 commitment next_index
        (λ level. unwrap_or (s.merkle_filled_subtrees level) (zero_value env.sha256 level)) in
    let roots_count = unwrap_or s.merkle_roots_count 0 in
    let slot = roots_count % roots_history_size in
    record s {
      merkle_filled_subtrees = persist s.merkle_filled_subtrees updates;
      merkle_root = some new_root;
      merkle_roots = insert s.merkle_roots slot new_root;
      merkle_roots_count = some (wrapping_add roots_count 1);
      merkle_next_index = some (wrapping_add next_index 1);
    }

unfoldable pub has_room : State → Bool
has_room s = ltb (unwrap_or s.merkle_next_index 0) (2 ^ tree_depth)

unfoldable pub insert_commitment : Env → Bytes → Exec Error State (Unit {0})
insert_commitment env commitment = do require has_room tree_full; modify (inserted env commitment)

-- `for i in 0..roots_count.min(ROOTS_HISTORY_SIZE)`, `rounds` of them from `i` on
unfoldable pub known_loop : ℕ → ℕ → StateMap ℕ Bytes → Bytes → Bool
known_loop zero i roots root = false
known_loop (suc rounds) i roots root =
    (elim (roots (i % roots_history_size)) [ none ↦ false | some r ↦ r == root ])
    || known_loop rounds (i + 1) roots root

unfoldable pub is_known_root : Bytes → State → Bool
unfolding known_loop
is_known_root root s =
    let roots_count = unwrap_or s.merkle_roots_count 0 in
    if nat_eq roots_count 0
    then false
    else known_loop (min roots_count roots_history_size) 0 s.merkle_roots root
