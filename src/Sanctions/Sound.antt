-- ===== src/Sanctions/Sound.antt =====
-- The witnesses that the program accepts, and the list of the oracle.
use native.Mathlib.Nat.{mod-lt, mod-eq_of_lt, mod_self, suc-mod, zero-mod}
use obscura_network.Prelude.{
  ℕ, zero, suc, ◌+◌, ◌%◌, ◌^◌, ◌≤◌, ◌<◌, ◌≡◌, ◌⊎◌, refl, sym, ap, ◌∙◌, subst, inl, inr, true, false,
  List, [], ◌∷◌, Bytes, bytes_eq, bytes_eq_sound, bytes_eq_self, Bytes_Eq, length, get_or, arith,
  wrapping_add, ltb, Bool-cases, ok,
}
use obscura_network.Merkle.{zero_bytes}
use obscura_network.Merkle.Tree.{node}
use obscura_network.Merkle.Inclusion.{Collision, All32}
use obscura_network.Merkle.Binding.{unless_collides}
use obscura_network.Sanctions.Order.{bytes_ltb, IsArray}
use obscura_network.Sanctions.Sort.{contains, contains-get_or, IsAscending, IsAscending-get_or}
use obscura_network.Sanctions.Oracle.{
  hash_addr, hash_leaf, SanctionsMerkleTree, build, root, is_sanctioned,
}
use obscura_network.Sanctions.Levels.{node_hash, power_pos}
use obscura_network.Sanctions.Build.{is_listed, leaf_at}
use obscura_network.Sanctions.Witness.{root_lem}
use obscura_network.Sanctions.Circuit as Circuit
use obscura_network.Sanctions.Circuit.{
  SanctionsWitness, SanctionsPublicOutputs, sanctions_circuit, sanctions_circuit-assertions,
  verify_merkle_proof,
}
use obscura_network.Sanctions.Paths.{verify_merkle_proof_iff, path_binds}
use obscura_network.Sanctions.Complete.{built-IsTree}

length_of-IsArray : (n : ℕ) (l : Bytes) → IsArray n l → length l ≡ n
length_of-IsArray n [] h = sym h
length_of-IsArray zero (x ∷ l) h = absurd h
length_of-IsArray (suc n) (x ∷ l) (p, h) = ap suc (length_of-IsArray n l h)

-- The place after `i`, modulo the number of leaves, is the next or the first, with or without a
-- wrap-around of the machine word.
next_place :
    (i j d : ℕ)
    → i < 2 ^ 64
    → wrapping_add i 1 ≡ j
    → (j % 2 ^ d ≡ suc (i % 2 ^ d)) ⊎ (j % 2 ^ d ≡ 0)
next_place i j d bound e =
    let m = 2 ^ d in
    elim (Bool-cases (ltb (suc i) (2 ^ 64))) [
      | inl exact ↦
          let step : j % m ≡ suc (i % m) % m =
            ap (λ k. k % m) {x = j} {y = suc i} (ground (arith, exact, e)) ∙ suc-mod i m in
          elim (Bool-cases (ltb (suc (i % m)) m)) [
            | inl inside ↦ inl (step ∙ mod-eq_of_lt (ground (arith, inside)))
            | inr last ↦
                let full : suc (i % m) ≡ m = ground (arith, last, mod-lt i (power_pos d)) in
                inr (step ∙ (ap (λ k. k % m) full ∙ mod_self m))
          ]
      | inr wraps ↦
          inr (ap (λ k. k % m) {x = j} {y = 0} (ground (arith, wraps, e, bound)) ∙ zero-mod m)
    ]

-- In an ascending vector nothing stands strictly between an element and the next, and nothing is
-- less than the first.
nothing_between :
    (l : List Bytes) (h : Bytes) (i j : ℕ)
    → IsAscending l
    → i < length l
    → j < length l
    → (j ≡ suc i) ⊎ (j ≡ 0)
    → bytes_ltb (get_or l i zero_bytes) h ≡ true
    → bytes_ltb h (get_or l j zero_bytes) ≡ true
    → contains h l ≡ false
nothing_between l h i j a lt lt' next left right = elim (Bool-cases (contains h l)) [
  | inr absent ↦ absent
  | inl present ↦
      let (k, in_l, e) = contains-get_or h l zero_bytes present in
      elim (Bool-cases (ltb k j)) [
        | inl before ↦
            absurd (
              cc (IsAscending-get_or l k i zero_bytes a (ground (arith, before, next)) lt, e, left))
        | inr after ↦
            absurd
              (cc (IsAscending-get_or l j k zero_bytes a (ground (arith, after)) in_l, e, right))
      ]
]

hashed_is_listed :
    (sha256 : Bytes → Bytes) (addresses : List Bytes) (a : Bytes)
    → is_listed sha256 addresses (hash_addr sha256 a) ≡ false
    → contains a addresses ≡ false
hashed_is_listed sha256 [] a h = refl
hashed_is_listed sha256 (x ∷ l) a h = elim (Bool-cases (bytes_eq a x)) [
  | inl same ↦
      let here : bytes_eq (hash_addr sha256 a) (hash_addr sha256 x) ≡ true =
        subst (λ y. bytes_eq (hash_addr sha256 a) (hash_addr sha256 y) ≡ true)
          (bytes_eq_sound a x same) (bytes_eq_self (hash_addr sha256 a)) in
      absurd (ground (arith, here, h))
  | inr other ↦ rw other (hashed_is_listed sha256 l a (ground (arith, h)))
]

pub sanctions_circuit_sound :
    (sha256 : Bytes → Bytes) (hash_array : (x : Bytes) → IsArray 32 (sha256 x))
    (addresses : List Bytes) (tree : SanctionsMerkleTree) (w : SanctionsWitness)
    (out : SanctionsPublicOutputs)
    → length addresses + 2 ≤ 2 ^ 63
    → build sha256 addresses ≡ ok tree
    → All32 w.left_proof
    → All32 w.right_proof
    → w.left_index < 2 ^ 64
    → root tree ≡ ok w.sanctions_root
    → sanctions_circuit sha256 w ≡ ok out
    → ((is_sanctioned sha256 tree w.recipient ≡ false) × (contains w.recipient addresses ≡ false))
      ⊎ Collision sha256
unfolding hash_addr Circuit.hash_addr hash_leaf Circuit.hash_leaf is_sanctioned
sanctions_circuit_sound sha256 hash_array addresses tree w out bound built ls rs word at_root
      accepted =
    let (_, is_tree) = built-IsTree sha256 hash_array addresses tree bound built in
    let sized : (x : Bytes) → length (sha256 x) ≡ 32 =
      λ x. length_of-IsArray 32 (sha256 x) (hash_array x) in
    let l = tree.sorted_addr_hashes in
    let (next, left, right, in_left, in_right, _) =
      (sanctions_circuit-assertions sha256 w out).0 accepted in
    let top : w.sanctions_root ≡ node (node_hash sha256) (leaf_at sha256 l) tree.depth 0 =
      cc (at_root, root_lem sha256 addresses tree is_tree) in
    let (_, up_left) = (verify_merkle_proof_iff sha256 _ _ _ _ _).0 in_left in
    let (_, up_right) = (verify_merkle_proof_iff sha256 _ _ _ _ _).0 in_right in
    unless_collides
      (path_binds sha256 sized l tree.depth w.left_index w.left_leaf w.left_proof ls
        (up_left ∙ top))
      λ e.
        unless_collides
          (path_binds sha256 sized l tree.depth w.right_index w.right_leaf w.right_proof rs
            (up_right ∙ top))
          λ e'.
            let absent =
              nothing_between l (hash_addr sha256 w.recipient) (w.left_index % 2 ^ tree.depth)
                (w.right_index % 2 ^ tree.depth) is_tree.ascending
                (omega (arith, is_tree.size, mod-lt w.left_index (power_pos tree.depth)))
                (omega (arith, is_tree.size, mod-lt w.right_index (power_pos tree.depth)))
                (next_place w.left_index w.right_index tree.depth word next)
                (subst (λ x. bytes_ltb x (hash_addr sha256 w.recipient) ≡ true) e left)
                (subst (λ x. bytes_ltb (hash_addr sha256 w.recipient) x ≡ true) e' right) in
            inl (
              absent,
              hashed_is_listed sha256 addresses w.recipient
                  (sym (is_tree.members (hash_addr sha256 w.recipient)) ∙ absent),
            )
