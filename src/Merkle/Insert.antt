-- ===== src/Merkle/Insert.antt =====
-- The loop of `compute_insert`: the node that it computes, and its updates.
use native.Mathlib.Nat.{pow-suc}
use obscura_network.Prelude.{
  ℕ, zero, suc, ◌+◌, ◌-◌, ◌*◌, ◌/◌, ◌%◌, ◌^◌, ◌≤◌, ◌<◌, ◌≡◌, refl, sym, ap, ap₂, ◌∙◌, ◌⊎◌, inl, inr,
  true, false, Bytes, StateMap, insert, insert_self, insert_ne, ℕ_Eq, unwrap_or, nat_eq, Bool-cases,
  arith,
}
use obscura_network.Merkle.{hash_pair, zero_value, insert_loop, persist}
use obscura_network.Merkle.Tree.{node, ZeroFrom, AgreeBut, ZeroFrom-suc, AgreeBut-suc}

-- `index >>= 1`, repeated.
abbrev pub shr : ℕ → ℕ → ℕ
shr zero index = index
shr (suc rounds) index = shr rounds (index / 2)

pub shr-zero : (rounds index : ℕ) → index < 2 ^ rounds → shr rounds index ≡ 0
shr-zero zero index h = omega arith
shr-zero (suc rounds) index h = shr-zero rounds (index / 2) (omega (arith, pow-suc 2 rounds))

module _ (sha256 : Bytes → Bytes) where
  -- `filled_subtrees.get(level).unwrap_or_else(|| zero_value(level))`
  abbrev pub filled_at : StateMap ℕ Bytes → ℕ → Bytes
  filled_at filled level = unwrap_or (filled level) (zero_value sha256 level)

  -- From a level on: where the next index is a right child, the stored subtree is its left sibling.
  abbrev pub FilledFrom : ℕ → ℕ → ℕ → StateMap ℕ Bytes → (ℕ → Bytes) → Type 0
  FilledFrom zero level index filled leaves = Unit {0}
  FilledFrom (suc rounds) level index filled leaves =
      (index % 2 ≡ 1 → filled_at filled level ≡ node sha256 leaves level (index - 1))
      × FilledFrom rounds (suc level) (index / 2) filled leaves

  -- What the loop knows of the node it has reached on its way from the new leaf to the root.
  pub record OnPath (leaves leaves' : ℕ → Bytes) (level index : ℕ) (current : Bytes) : Type 0 where
    pub is_node : current ≡ node sha256 leaves' level index
    pub zeros : ZeroFrom sha256 leaves' level (index + 1)
    pub agree : AgreeBut sha256 leaves leaves' level index

-- The path of the next index stays beside the path of this one.
next_even :
    (index index' : ℕ)
    → nat_eq (index % 2) 0 ≡ true
    → (index' ≡ index) ⊎ (index' ≡ index + 1)
    → (index' / 2 ≡ index / 2) ⊎ (index' / 2 ≡ index / 2 + 1)
next_even index index' even (inl e) = inl (ground arith)
next_even index index' even (inr e) = inl (ground arith)

next_odd :
    (index index' : ℕ)
    → nat_eq (index % 2) 0 ≡ false
    → (index' ≡ index) ⊎ (index' ≡ index + 1)
    → (index' / 2 ≡ index / 2) ⊎ (index' / 2 ≡ index / 2 + 1)
next_odd index index' odd (inl e) = inl (ground arith)
next_odd index index' odd (inr e) = inr (ground arith)

module _ (sha256 : Bytes → Bytes) (leaves leaves' : ℕ → Bytes) where
  OnPath-left :
      (level index : ℕ) (current : Bytes)
      → nat_eq (index % 2) 0 ≡ true
      → OnPath sha256 leaves leaves' level index current
      → OnPath sha256 leaves leaves'
          (suc level)
          (index / 2)
          (hash_pair sha256 current (zero_value sha256 level))
  unfolding node
  OnPath-left level index current even p = record {
    is_node =
        ap₂ (hash_pair sha256) (p.is_node ∙ ap (node sha256 leaves' level) (ground arith))
          (sym (p.zeros (2 * (index / 2) + 1) (ground arith)));
    zeros = λ i le. ZeroFrom-suc sha256 leaves' level (index + 1) p.zeros i (ground arith);
    agree = AgreeBut-suc sha256 leaves leaves' level index p.agree;
  }

  OnPath-right :
      (level index : ℕ) (current left : Bytes)
      → nat_eq (index % 2) 0 ≡ false
      → left ≡ node sha256 leaves level (index - 1)
      → OnPath sha256 leaves leaves' level index current
      → OnPath sha256 leaves leaves' (suc level) (index / 2) (hash_pair sha256 left current)
  unfolding node
  OnPath-right level index current left odd e p = record {
    is_node =
        ap₂ (hash_pair sha256)
          (e
            ∙ (sym (p.agree (index - 1) (ground arith))
                ∙ ap (node sha256 leaves' level) (ground arith)))
          (p.is_node ∙ ap (node sha256 leaves' level) (ground arith));
    zeros = λ i le. ZeroFrom-suc sha256 leaves' level (index + 1) p.zeros i (ground arith);
    agree = AgreeBut-suc sha256 leaves leaves' level index p.agree;
  }

  pub insert_loop-root :
      (rounds level depth index : ℕ) (current : Bytes) (filled : StateMap ℕ Bytes)
      → level + rounds ≡ depth
      → OnPath sha256 leaves leaves' level index current
      → FilledFrom sha256 rounds level index filled leaves
      → (insert_loop sha256 rounds level index current (filled_at sha256 filled)).0
        ≡ node sha256 leaves' depth (shr rounds index)
  unfolding insert_loop
  insert_loop-root zero level depth index current filled e p f =
      p.is_node ∙ ap (λ l. node sha256 leaves' l index) (omega arith)
  insert_loop-root (suc rounds) level depth index current filled e p f =
      elim (Bool-cases (nat_eq (index % 2) 0)) [
        | inl even ↦
            rw (even, insert_loop)
              (insert_loop-root rounds (suc level) depth (index / 2) _ filled (omega arith)
                (OnPath-left level index current even p) f.1)
        | inr odd ↦
            rw (odd, insert_loop)
              (insert_loop-root rounds (suc level) depth (index / 2) _ filled (omega arith)
                (OnPath-right level index current _ odd (f.0 (ground arith)) p) f.1)
      ]

  persist-below :
      (rounds level index j : ℕ) (current : Bytes) (g : ℕ → Bytes) (filled : StateMap ℕ Bytes)
      → j < level
      → persist filled (insert_loop sha256 rounds level index current g).1 j ≡ filled j
  unfolding persist insert_loop
  persist-below zero level index j current g filled h = refl
  persist-below (suc rounds) level index j current g filled h =
      elim (Bool-cases (nat_eq (index % 2) 0)) [
        | inl even ↦
            rw (even, insert_loop)
              (persist-below rounds (suc level) (index / 2) j _ g (insert filled level current)
                  (omega arith)
                ∙ insert_ne filled level j current (omega arith))
        | inr odd ↦
            rw (odd, insert_loop)
              (persist-below rounds (suc level) (index / 2) j _ g filled (omega arith))
      ]

  pub insert_loop-filled :
      (rounds level index index' : ℕ) (current : Bytes) (filled base : StateMap ℕ Bytes)
      → (index' ≡ index) ⊎ (index' ≡ index + 1)
      → OnPath sha256 leaves leaves' level index current
      → FilledFrom sha256 rounds level index filled leaves
      → ((j : ℕ) → level ≤ j → base j ≡ filled j)
      → FilledFrom sha256 rounds level index'
          (persist base (insert_loop sha256 rounds level index current (filled_at sha256 filled)).1)
          leaves'
  unfolding insert_loop persist
  insert_loop-filled zero level index index' current filled base n p f b = tt
  insert_loop-filled (suc rounds) level index index' current filled base n p f b =
      elim (Bool-cases (nat_eq (index % 2) 0)) [
        | inl even ↦
            rw (even, insert_loop)
              (
                (λ h.
                    ap (λ o. unwrap_or o (zero_value sha256 level))
                      (persist-below rounds (suc level) (index / 2) level _ _ _ (omega arith)
                        ∙ insert_self base level current)
                    ∙ (p.is_node ∙ ap (node sha256 leaves' level) (ground arith))),
                insert_loop-filled rounds (suc level) (index / 2) (index' / 2) _ filled _
                    (next_even index index' even n) (OnPath-left level index current even p) f.1
                    (λ j le. insert_ne base level j current (omega arith) ∙ b j (omega arith)),
              )
        | inr odd ↦
            rw (odd, insert_loop)
              (
                (λ h.
                    ap (λ o. unwrap_or o (zero_value sha256 level))
                      (persist-below rounds (suc level) (index / 2) level _ _ base (omega arith)
                        ∙ b level (omega arith))
                    ∙ (f.0 (ground arith)
                        ∙ (sym (p.agree (index - 1) (ground arith))
                            ∙ ap (node sha256 leaves' level) (ground arith)))),
                insert_loop-filled rounds (suc level) (index / 2) (index' / 2) _ filled base
                    (next_odd index index' odd n)
                    (OnPath-right level index current _ odd (f.0 (ground arith)) p) f.1
                    (λ j le. b j (omega arith)),
              )
      ]
