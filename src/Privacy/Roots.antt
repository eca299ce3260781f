-- ===== src/Privacy/Roots.antt =====
-- `is_known_root` against the history of the tree.
use obscura_network.Prelude.{
  ℕ, zero, suc, ◌+◌, ◌-◌, ◌%◌, ◌<◌, ◌≤◌, ◌≡◌, sym, ap, ◌∙◌, inl, inr, ◌↔◌, true, Option, some, List,
  Bytes, StateMap, bytes_eq, bytes_eq_sound, bytes_eq_self, unwrap_or, some_cancel, nat_eq, min,
  length, take, Bool-cases, Option-cases, arith,
}
use obscura_network.Merkle.{roots_history_size}
use obscura_network.Merkle.Tree.{tree_root}
use obscura_network.Privacy.Types.{Env}
use obscura_network.Privacy.State.{State, known_loop, is_known_root}
use obscura_network.Privacy.Tree.{HasTree}

-- The loop finds a root in one of the slots that it goes through.
known_loop_sound :
    (rounds i : ℕ) (roots : StateMap ℕ Bytes) (root : Bytes)
    → known_loop rounds i roots root ≡ true
    → (j : ℕ) × (i ≤ j) × (j < i + rounds) × (roots (j % roots_history_size) ≡ some root)
unfolding known_loop
known_loop_sound zero i roots root h = cc
known_loop_sound (suc rounds) i roots root h =
    elim (Option-cases (roots (i % roots_history_size))) [
      | inl e ↦
          let (j, le, lt, q) =
            known_loop_sound rounds (i + 1) roots root (rw (e, known_loop) at h) in
          (j, omega arith, omega arith, q)
      | inr (r, e) ↦ elim (Bool-cases (bytes_eq r root)) [
        | inl same ↦ (i, omega arith, omega arith, e ∙ ap some (bytes_eq_sound r root same))
        | inr differ ↦
            let (j, le, lt, q) =
              known_loop_sound rounds (i + 1) roots root (rw (e, differ, known_loop) at h) in
            (j, omega arith, omega arith, q)
      ]
    ]

known_loop_complete :
    (rounds i j : ℕ) (roots : StateMap ℕ Bytes) (root : Bytes)
    → i ≤ j
    → j < i + rounds
    → roots (j % roots_history_size) ≡ some root
    → known_loop rounds i roots root ≡ true
unfolding known_loop
known_loop_complete zero i j roots root le lt q = absurd (omega arith)
known_loop_complete (suc rounds) i j roots root le lt q = elim (Bool-cases (nat_eq i j)) [
  | inl here ↦ let e : i ≡ j = ground arith in rw (e, q, bytes_eq_self root, known_loop)
  | inr later ↦
      ground
        (arith, known_loop_complete rounds (i + 1) j roots root (ground arith) (ground arith) q)
]

is_known_root_lem :
    (root : Bytes) (s : State)
    → is_known_root root s
      ≡ known_loop (min (unwrap_or s.merkle_roots_count 0) roots_history_size) 0 s.merkle_roots root
unfolding is_known_root known_loop
is_known_root_lem root s = elim (Bool-cases (nat_eq (unwrap_or s.merkle_roots_count 0) 0)) [
  | inl empty ↦ let e : unwrap_or s.merkle_roots_count 0 ≡ 0 = ground arith in rw (empty, e)
  | inr more ↦ rw more
]

module _ (env : Env) (l : List Bytes) (s : State) (t : HasTree env l s) where
  roots_count : unwrap_or s.merkle_roots_count 0 ≡ length l
  roots_count = ap (λ (o : Option ℕ). unwrap_or o 0) t.count

  -- The last insertion whose root stands in slot `j`.
  last_in_slot : ℕ → ℕ
  last_in_slot j = length l - 1 - (length l - 1 - j) % roots_history_size

  -- One of the last 100 roots of the tree.
  abbrev IsRecent : Bytes → Type 0
  IsRecent root =
      (k : ℕ) × (k < length l)
      × (length l ≤ k + roots_history_size)
      × (root ≡ tree_root env.sha256 (take (k + 1) l))

  slot-IsRecent :
      (root : Bytes) (j : ℕ)
      → j < min (unwrap_or s.merkle_roots_count 0) roots_history_size
      → s.merkle_roots (j % roots_history_size) ≡ some root
      → IsRecent root
  unfolding last_in_slot
  slot-IsRecent root j lt q =
      let k = last_in_slot j in
      let k_lt : k < length l = omega (arith, roots_count) in
      let recent : length l ≤ k + roots_history_size = omega (arith, roots_count) in
      let slot : k % roots_history_size ≡ j % roots_history_size = omega (arith, roots_count) in
      (k, k_lt, recent, some_cancel (sym q ∙ (ap s.merkle_roots (sym slot) ∙ t.ring k k_lt recent)))

  known-IsRecent : (root : Bytes) → is_known_root root s ≡ true → IsRecent root
  known-IsRecent root h =
      let (j, _, lt, q) =
        known_loop_sound (min (unwrap_or s.merkle_roots_count 0) roots_history_size) 0
          s.merkle_roots root (sym (is_known_root_lem root s) ∙ h) in
      slot-IsRecent root j (omega arith) q

  IsRecent-known : (root : Bytes) → IsRecent root → is_known_root root s ≡ true
  IsRecent-known root (k, lt, recent, e) =
      is_known_root_lem root s
      ∙ known_loop_complete (min (unwrap_or s.merkle_roots_count 0) roots_history_size) 0
          (k % roots_history_size) s.merkle_roots root (omega arith) (omega (arith, roots_count))
          (ap s.merkle_roots {x = k % roots_history_size % roots_history_size}
              {y = k % roots_history_size} (omega arith)
            ∙ (t.ring k lt recent ∙ ap some (sym e)))

-- With the tree over `l` in the state, a root is known exactly when it is the root of the tree
-- after one of the last 100 insertions.
pub is_known_root_iff :
    (env : Env) (l : List Bytes) (s : State) (root : Bytes)
    → HasTree env l s
    → (is_known_root root s ≡ true) ↔ (
        (k : ℕ) × (k < length l)
        × (length l ≤ k + roots_history_size)
        × (root ≡ tree_root env.sha256 (take (k + 1) l)))
is_known_root_iff env l s root t = (known-IsRecent env l s t root, IsRecent-known env l s t root)
