-- ===== src/Merkle/Fill.antt =====
-- The loops of `build_proof_paths` that fill the array: what stands at each place after them.
use obscura_network.Prelude.{
  ℕ, zero, suc, ◌+◌, ◌-◌, ◌*◌, ◌%◌, ◌<◌, ◌≡◌, ◌≢◌, refl, ap, ◌∙◌, List, [], ◌∷◌, Bytes, length,
  nat_eq, arith, if◌then◌else◌,
}
use obscura_network.Merkle.{write, fill_leaves, fill_empty}
use obscura_network.Merkle.Tree.{leaves_of}
use obscura_network.Merkle.Inclusion.{sibling}

pub write_self : (nodes : ℕ → Bytes) (p : ℕ) (v : Bytes) → write nodes p v p ≡ v
write_self nodes p v = ground arith

pub write_ne : (nodes : ℕ → Bytes) (p q : ℕ) (v : Bytes) → p ≢ q → write nodes p v q ≡ nodes q
write_ne nodes p q v h = ground arith

pub fill_leaves-before :
    (size i p : ℕ) (l : List Bytes) (nodes : ℕ → Bytes)
    → p < size + i
    → fill_leaves size i l nodes p ≡ nodes p
unfolding fill_leaves
fill_leaves-before size i p [] nodes h = refl
fill_leaves-before size i p (x ∷ l) nodes h =
    fill_leaves-before size (i + 1) p l _ (omega arith) ∙ ground arith

pub fill_leaves-at :
    (size i j : ℕ) (l : List Bytes) (nodes : ℕ → Bytes)
    → j < length l
    → fill_leaves size i l nodes (size + (i + j)) ≡ leaves_of l j
unfolding fill_leaves
fill_leaves-at size i j [] nodes h = absurd (omega arith)
fill_leaves-at size i zero (x ∷ l) nodes h =
    fill_leaves-before size (i + 1) (size + (i + 0)) l _ (omega arith) ∙ ground arith
fill_leaves-at size i (suc j) (x ∷ l) nodes h =
    ap (fill_leaves size (i + 1) l (write nodes (size + i) x)) (omega arith)
    ∙ fill_leaves-at size (i + 1) j l _ (omega arith)

pub fill_empty-before :
    (rounds size i p : ℕ) (z : Bytes) (nodes : ℕ → Bytes)
    → p < size + i
    → fill_empty rounds size i z nodes p ≡ nodes p
unfolding fill_empty
fill_empty-before zero size i p z nodes h = refl
fill_empty-before (suc rounds) size i p z nodes h =
    fill_empty-before rounds size (i + 1) p z _ (omega arith) ∙ ground arith

pub fill_empty-at :
    (rounds size i j : ℕ) (z : Bytes) (nodes : ℕ → Bytes)
    → j < rounds
    → fill_empty rounds size i z nodes (size + (i + j)) ≡ z
unfolding fill_empty
fill_empty-at zero size i j z nodes h = absurd (omega arith)
fill_empty-at (suc rounds) size i zero z nodes h =
    fill_empty-before rounds size (i + 1) (size + (i + 0)) z _ (omega arith) ∙ ground arith
fill_empty-at (suc rounds) size i (suc j) z nodes h =
    ap (fill_empty rounds size (i + 1) z (write nodes (size + i) z)) (omega arith)
    ∙ fill_empty-at rounds size (i + 1) j z _ (omega arith)

-- The sibling's place in the array, below the even offset of the level.
pub read_sibling :
    (nodes : ℕ → Bytes) (offset half i : ℕ)
    → offset ≡ half * 2
    → (if nat_eq ((offset + i) % 2) 0 then nodes (offset + i + 1) else nodes (offset + i - 1))
      ≡ nodes (offset + sibling i)
read_sibling nodes offset half i e = ground arith
