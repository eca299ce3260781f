-- ===== src/Sanctions/Build.antt =====
-- What `build` makes of a list of addresses.
use native.Mathlib.Nat.{pow-suc}
use obscura_network.Prelude.{
  ℕ, zero, suc, ◌+◌, ◌-◌, ◌^◌, ◌≤◌, ◌<◌, ◌≡◌, refl, sym, ap, ◌∙◌, subst, inl, inr, Bool, true,
  false, ◌||◌, List, [], ◌∷◌, ◌++◌, Bytes, map, bytes_eq_sound, bytes_eq_self, bytes_eq, ◌==◌,
  Bytes_Eq, length, length-append, get_or, replicate, arith, Bool-cases, ok,
}
use obscura_network.Merkle.{zero_bytes}
use obscura_network.Merkle.Tree.{node}
use obscura_network.Sanctions.Order.{IsArray, IsUpTo-greatest, IsArray-replicate}
use obscura_network.Sanctions.Sort.{
  sort, resize, contains, IsAscending, AllUpTo, AllUpTo-intro, sort-IsAscending, dedup-IsAscending,
  contains-sort, contains-dedup, contains-append, contains-replicate, IsAscending-append,
  resize_grow, length-resize, length-sort, length-dedup,
}
use obscura_network.Sanctions.Power.{next_power_of_two, next_power_of_two_lem, trailing_zeros-power}
use obscura_network.Sanctions.Oracle.{
  max_bytes, hash_addr, hash_leaf, SanctionsMerkleTree, listed_hashes, build, levels_loop,
}
use obscura_network.Sanctions.Levels.{
  tree_levels, levels_loop-tree_levels, prefix_of, prefix_of-get_or, power_pos,
}

absorb : (a b : Bool) → (b ≡ true → a ≡ true) → (a || b) ≡ a
absorb true b h = refl
absorb false true h = sym (h refl)
absorb false false h = refl

power_above : (d : ℕ) → d ≤ 2 ^ d
power_above zero = omega arith
power_above (suc d) = omega (arith, power_above d, pow-suc 2 d, power_pos d)

module _ (sha256 : Bytes → Bytes) where
  -- Whether a hash is that of an address of the list, or of one of the two sentinels.
  abbrev pub is_listed : List Bytes → Bytes → Bool
  is_listed addresses h =
      contains h (map (hash_addr sha256) addresses) || (h == zero_bytes || h == max_bytes)

  -- The leaves over a vector of hashes.
  abbrev pub leaf_at : List Bytes → ℕ → Bytes
  leaf_at hashes i = hash_leaf sha256 (get_or hashes i zero_bytes)

  -- The sorted tree over a list of addresses.
  pub record IsTree (addresses : List Bytes) (tree : SanctionsMerkleTree) : Type 0 where
    pub size : length tree.sorted_addr_hashes ≡ 2 ^ tree.depth
    pub ascending : IsAscending tree.sorted_addr_hashes
    pub members : (h : Bytes) → contains h tree.sorted_addr_hashes ≡ is_listed addresses h
    pub all_levels : tree.levels ≡ tree_levels sha256 (leaf_at tree.sorted_addr_hashes) 0 tree.depth

  contains-listed_hashes :
      (addresses : List Bytes) (h : Bytes)
      → contains h (listed_hashes sha256 addresses) ≡ is_listed addresses h
  unfolding listed_hashes
  contains-listed_hashes addresses h =
      contains-dedup h (sort _)
      ∙ contains-sort h (map (hash_addr sha256) addresses ++ zero_bytes ∷ max_bytes ∷ [])
      ∙ (contains-append h (map (hash_addr sha256) addresses) (zero_bytes ∷ max_bytes ∷ [])
          ∙ ground arith)

  listed_hashes-IsAscending :
      (addresses : List Bytes) → IsAscending (listed_hashes sha256 addresses)
  unfolding listed_hashes
  listed_hashes-IsAscending addresses = dedup-IsAscending _ (sort-IsAscending _)

  length-map :
      (addresses : List Bytes) → length (map (hash_addr sha256) addresses) ≡ length addresses
  length-map [] = refl
  length-map (a ∷ l) = ap suc (length-map l)

  length-listed_hashes :
      (addresses : List Bytes) → length (listed_hashes sha256 addresses) ≤ length addresses + 2
  unfolding listed_hashes
  length-listed_hashes addresses =
      let all = map (hash_addr sha256) addresses ++ zero_bytes ∷ max_bytes ∷ [] in
      omega (
        arith,
        length-dedup (sort all),
        length-sort all,
        length-append (map (hash_addr sha256) addresses) (zero_bytes ∷ max_bytes ∷ []),
        length-map addresses,
      )

  module _ (hash_array : (x : Bytes) → IsArray 32 (sha256 x)) where
    hashed-IsArray :
        (addresses : List Bytes) (h : Bytes)
        → contains h (map (hash_addr sha256) addresses) ≡ true
        → IsArray 32 h
    unfolding hash_addr
    hashed-IsArray [] h c = cc
    hashed-IsArray (a ∷ l) h c = elim (Bool-cases (h == hash_addr sha256 a)) [
      | inl here ↦ subst (IsArray 32) (sym (bytes_eq_sound _ _ here)) (hash_array _)
      | inr there ↦ hashed-IsArray l h (rw there at c)
    ]

    -- All that is listed is an array of 32 bytes.
    pub is_listed-IsArray :
        (addresses : List Bytes) (h : Bytes) → is_listed addresses h ≡ true → IsArray 32 h
    is_listed-IsArray addresses h c =
        elim (Bool-cases (contains h (map (hash_addr sha256) addresses))) [
          | inl hashed ↦ hashed-IsArray addresses h hashed
          | inr other ↦ elim (Bool-cases (bytes_eq h zero_bytes)) [
            | inl least ↦
                subst (IsArray 32) (sym (bytes_eq_sound h zero_bytes least))
                  (IsArray-replicate 32 0 (omega arith))
            | inr rest ↦
                subst (IsArray 32)
                  (sym (bytes_eq_sound h max_bytes (ground (arith, c, other, rest))))
                  (IsArray-replicate 32 255 (omega arith))
          ]
        ]

    listed_hashes-AllUpTo :
        (addresses : List Bytes) → AllUpTo max_bytes (listed_hashes sha256 addresses)
    listed_hashes-AllUpTo addresses =
        AllUpTo-intro max_bytes (listed_hashes sha256 addresses) (λ y c.
          IsUpTo-greatest 32 y
            (is_listed-IsArray addresses y (sym (contains-listed_hashes addresses y) ∙ c)))

  pub max_listed : (addresses : List Bytes) → is_listed addresses max_bytes ≡ true
  max_listed addresses = ground (arith, bytes_eq_self max_bytes)

  pub zero_listed : (addresses : List Bytes) → is_listed addresses zero_bytes ≡ true
  zero_listed addresses = ground (arith, bytes_eq_self zero_bytes)

  -- Padding adds nothing that was not there.
  padded-is_listed :
      (addresses : List Bytes) (n : ℕ) (h : Bytes)
      → contains h (listed_hashes sha256 addresses ++ replicate n max_bytes) ≡ is_listed addresses h
  padded-is_listed addresses n h =
      contains-append h (listed_hashes sha256 addresses) (replicate n max_bytes)
      ∙ (ap (λ b. b || contains h (replicate n max_bytes)) (contains-listed_hashes addresses h)
          ∙ absorb (is_listed addresses h) (contains h (replicate n max_bytes)) (λ pad.
            ap (is_listed addresses) (contains-replicate h max_bytes n pad) ∙ max_listed addresses))

  length-leaves : (l : List Bytes) → length (map (hash_leaf sha256) l) ≡ length l
  length-leaves [] = refl
  length-leaves (x ∷ l) = ap suc (length-leaves l)

  stored_levels :
      (d : ℕ) (hashes : List Bytes)
      → length hashes ≡ 2 ^ d
      → levels_loop (length (map (hash_leaf sha256) hashes)) sha256 (map (hash_leaf sha256) hashes)
        ≡ ok (tree_levels sha256 (leaf_at hashes) 0 d)
  unfolding node
  stored_levels d hashes e =
      ap (levels_loop (length (map (hash_leaf sha256) hashes)) sha256)
        (prefix_of-get_or hashes zero_bytes (hash_leaf sha256) ∙ ap (prefix_of (leaf_at hashes)) e)
      ∙ levels_loop-tree_levels sha256 (leaf_at hashes) _ 0 d
          (omega (arith, length-leaves hashes, power_above d))

  -- The tree over the addresses, of a given depth.
  tree_over : List Bytes → ℕ → SanctionsMerkleTree
  tree_over addresses d =
      let hashes = resize (2 ^ d) max_bytes (listed_hashes sha256 addresses) in
      record {
        sorted_addr_hashes = hashes;
        levels = tree_levels sha256 (leaf_at hashes) 0 d;
        depth = d;
      }

  tree_over-IsTree :
      (hash_array : (x : Bytes) → IsArray 32 (sha256 x)) (addresses : List Bytes) (d : ℕ)
      → length (listed_hashes sha256 addresses) ≤ 2 ^ d
      → IsTree addresses (tree_over addresses d)
  unfolding tree_over
  tree_over-IsTree hash_array addresses d up =
      let hashes = listed_hashes sha256 addresses in
      let n = 2 ^ d - length hashes in
      let padded : resize (2 ^ d) max_bytes hashes ≡ hashes ++ replicate n max_bytes =
        resize_grow (2 ^ d) max_bytes hashes up in
      record {
        size = length-resize (2 ^ d) max_bytes hashes up;
        ascending = subst IsAscending (sym padded) (
            IsAscending-append max_bytes n hashes (listed_hashes-AllUpTo hash_array addresses)
              (listed_hashes-IsAscending addresses));
        members = λ h. ap (contains h) padded ∙ padded-is_listed addresses n h;
        all_levels = refl;
      }

  build-tree_over :
      (addresses : List Bytes) (d : ℕ)
      → d ≤ 63
      → length (listed_hashes sha256 addresses) ≤ 2 ^ d
      → next_power_of_two (length (listed_hashes sha256 addresses)) ≡ 2 ^ d
      → build sha256 addresses ≡ ok (tree_over addresses d)
  unfolding build tree_over
  build-tree_over addresses d le up e =
      let hashes = listed_hashes sha256 addresses in
      let stored =
        stored_levels d (resize (2 ^ d) max_bytes hashes)
          (length-resize (2 ^ d) max_bytes hashes up) in
      rw (e, stored, trailing_zeros-power d (omega arith)) refl

  -- Below the bound at which the number of leaves is no longer a machine word, `build` makes the
  -- sorted tree over the addresses and the two sentinels.
  pub build-IsTree :
      (hash_array : (x : Bytes) → IsArray 32 (sha256 x)) (addresses : List Bytes)
      → length addresses + 2 ≤ 2 ^ 63
      → (tree : SanctionsMerkleTree) × (build sha256 addresses ≡ ok tree)
        × (tree.depth < 64)
        × IsTree addresses tree
  unfolding tree_over
  build-IsTree hash_array addresses h =
      let (d, le, up, e) =
        next_power_of_two_lem (length (listed_hashes sha256 addresses))
          (omega (arith, length-listed_hashes addresses)) in
      (
        tree_over addresses d,
        build-tree_over addresses d le up e,
        omega arith,
        tree_over-IsTree hash_array addresses d up,
      )
