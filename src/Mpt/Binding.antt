-- ===== src/Mpt/Binding.antt =====
-- A root of a trie, and the value at a key; the hash of a short node is not checked.
use obscura_network.Prelude.{
  ℕ, ◌≤◌, ◌≡◌, ◌≢◌, ◌⊎◌, inl, inr, refl, sym, ap, ◌∙◌, subst, Bool, true, false, not, ◌&&◌, List,
  [], ◌∷◌, Bytes, bytes_eq, bytes_eq_sound, bytes_eq_ne, ◌==◌, Bytes_Eq, length, take, drop, get_or,
  nat_eq, leb, ltb, arith, Bool-cases, if◌then◌else◌, Result, ok, err,
}
use obscura_network.Merkle.Inclusion.{Collision}
use obscura_network.Mpt.Rlp.{RlpError, malformed, slice_panic, out_of_fuel, rlp_decode_list}
use obscura_network.Mpt.Trie.{
  decode_hp, NodeStep, value, descend, rejected, branch_step, pair_step, node_step, decoded_step,
  read_node, mpt_loop, verify_mpt_proof, bytes_to_nibbles,
}
use obscura_network.Mpt.Items.{bind_ok, rlp_decode_list-bound}

-- The value or the hash that a step goes on with is an item of the node.
abbrev FromItem : List Bytes → NodeStep → Type 0
FromItem items (value x) = (i : ℕ) × (get_or items i [] ≡ x)
FromItem items (descend h rest) = (i : ℕ) × (get_or items i [] ≡ h) × (length h ≡ 32)
FromItem items rejected = Unit {0}

if_either {ℓ κ} :
    {A : Type ℓ} (P : A → Type κ) (b : Bool) {x y : A}
    → (b ≡ true → P x)
    → P y
    → P (if b then x else y)
if_either P true p q = p refl
if_either P false p q = q

module _ (items : List Bytes) where
  child-FromItem :
      (i : ℕ) (rest : List ℕ)
      → FromItem items (
          if nat_eq (length (get_or items i [])) 32
          then descend (get_or items i []) rest
          else rejected)
  child-FromItem i rest =
      if_either (FromItem items) (nat_eq (length (get_or items i [])) 32)
        (λ hash. (i, refl, ground (arith, hash))) tt

  branch_step-FromItem : (nibbles : List ℕ) → FromItem items (branch_step nibbles items)
  unfolding branch_step
  branch_step-FromItem [] = (16, refl)
  branch_step-FromItem (n ∷ nibbles) =
      if_either (FromItem items) (nat_eq (length (get_or items n [])) 0) (λ empty. tt)
        (child-FromItem n nibbles)

  pair_step-FromItem :
      (nibbles : List ℕ)
      → FromItem items (pair_step nibbles (get_or items 0 []) (get_or items 1 []))
  unfolding pair_step
  pair_step-FromItem nibbles =
      let (is_leaf, path) = decode_hp (get_or items 0 []) in
      let rest = drop (length path) nibbles in
      if_either (FromItem items) (ltb (length nibbles) (length path)) (λ _. tt)
        (if_either (FromItem items) (not (take (length path) nibbles == path)) (λ _. tt)
          (if_either (FromItem items) is_leaf
            (λ _. if_either (FromItem items) (nat_eq (length rest) 0) (λ _. (1, refl)) tt)
            (child-FromItem 1 rest)))

  node_step-FromItem : (nibbles : List ℕ) → FromItem items (node_step nibbles items)
  unfolding node_step
  node_step-FromItem nibbles =
      if_either (FromItem items) (nat_eq (length items) 17) (λ _. branch_step-FromItem nibbles)
        (if_either (FromItem items) (nat_eq (length items) 2) (λ _. pair_step-FromItem nibbles) tt)

-- What an accepted proof goes on with after its first node.
abbrev Onwards : (Bytes → Bytes) → Bytes → List Bytes → NodeStep → Type 0
Onwards keccak256 v proof (value x) = x ≡ v
Onwards keccak256 v proof (descend h rest) = mpt_loop keccak256 v rest h proof ≡ ok true
Onwards keccak256 v proof rejected = ⊥

mpt_loop_inv :
    (keccak256 : Bytes → Bytes) (v : Bytes) (nibbles : List ℕ) (current node : Bytes)
    (proof : List Bytes)
    → mpt_loop keccak256 v nibbles current (node ∷ proof) ≡ ok true
    → (step : NodeStep) × (read_node keccak256 current nibbles node ≡ ok step)
      × Onwards keccak256 v proof step
unfolding mpt_loop
mpt_loop_inv keccak256 v nibbles current node proof h =
    let (step, e, h') = bind_ok (read_node keccak256 current nibbles node) _ true h in
    (step, e, onwards step h')
  where
    onwards :
        (step : NodeStep)
        → (elim step [
          | value found ↦ ok (found == v)
          | descend hash rest ↦ mpt_loop keccak256 v rest hash proof
          | rejected ↦ ok false
        ])
          ≡ ok true
        → Onwards keccak256 v proof step
    onwards (value x) p = bytes_eq_sound x v (ground (arith, p))
    onwards (descend h rest) p = p
    onwards rejected p = ground (arith, p)

decoded_step_inv :
    (nibbles : List ℕ) (r : Result RlpError (List Bytes)) (step : NodeStep)
    → decoded_step nibbles r ≡ ok step
    → step ≢ rejected
    → (items : List Bytes) × (r ≡ ok items) × (node_step nibbles items ≡ step)
unfolding decoded_step
decoded_step_inv nibbles (ok items) step h ne = (items, refl, ground (arith, h))
decoded_step_inv nibbles (err malformed) step h ne = absurd (ne (ground (arith, h)))
decoded_step_inv nibbles (err slice_panic) step h ne = absurd (ground (arith, h))
decoded_step_inv nibbles (err out_of_fuel) step h ne = absurd (ground (arith, h))

-- A step that goes on comes from a decoded node, whose hash was checked unless it is short.
read_node_inv :
    (keccak256 : Bytes → Bytes) (current : Bytes) (nibbles : List ℕ) (node : Bytes)
    (step : NodeStep)
    → read_node keccak256 current nibbles node ≡ ok step
    → step ≢ rejected
    → ((items : List Bytes) × (rlp_decode_list node ≡ ok items) × (node_step nibbles items ≡ step))
      × (32 ≤ length node → keccak256 node ≡ current)
unfolding read_node
read_node_inv keccak256 current nibbles node step h ne =
    elim (Bool-cases (not (keccak256 node == current) && leb 32 (length node))) [
      | inl bad ↦ absurd (ne (ground (arith, bad, h)))
      | inr good ↦ (
        decoded_step_inv nibbles (rlp_decode_list node) step (rw good at h) ne,
        λ long. bytes_eq_sound (keccak256 node) current (ground (arith, good, long)),
      )
    ]

Onwards-ne :
    (keccak256 : Bytes → Bytes) (v : Bytes) (proof : List Bytes) (step : NodeStep)
    → Onwards keccak256 v proof step
    → step ≢ rejected
Onwards-ne keccak256 v proof (value x) on e = ground (arith, e)
Onwards-ne keccak256 v proof (descend h rest) on e = ground (arith, e)
Onwards-ne keccak256 v proof rejected on e = on

long_item :
    (keccak256 : Bytes → Bytes) (v : Bytes) (proof items : List Bytes) (step : NodeStep)
    → 32 ≤ length v
    → FromItem items step
    → Onwards keccak256 v proof step
    → (i : ℕ) × (32 ≤ length (get_or items i []))
long_item keccak256 v proof items (value x) long (i, e) on =
    (i, omega (arith, ap length e, ap length on))
long_item keccak256 v proof items (descend h rest) long (i, e, n) on =
    (i, omega (arith, ap length e))
long_item keccak256 v proof items rejected long from on = absurd on

-- For a value that is not short, every node of an accepted proof has the hash that leads to it.
hash_checked :
    (keccak256 : Bytes → Bytes) (v : Bytes) (nibbles : List ℕ) (current node : Bytes)
    (proof : List Bytes)
    → 32 ≤ length v
    → mpt_loop keccak256 v nibbles current (node ∷ proof) ≡ ok true
    → (keccak256 node ≡ current)
      × ((items : List Bytes) × (rlp_decode_list node ≡ ok items)
          × Onwards keccak256 v proof (node_step nibbles items))
hash_checked keccak256 v nibbles current node proof long h =
    let (step, e, on) = mpt_loop_inv keccak256 v nibbles current node proof h in
    let ((items, d, st), linked) =
      read_node_inv keccak256 current nibbles node step e (Onwards-ne keccak256 v proof step on) in
    let on' = subst (Onwards keccak256 v proof) (sym st) on in
    let (i, big) =
      long_item keccak256 v proof items (node_step nibbles items) long
        (node_step-FromItem items nibbles) on' in
    (linked (omega (arith, rlp_decode_list-bound node items i d)), (items, d, on'))

module _ (keccak256 : Bytes → Bytes) (v w : Bytes) (long_v : 32 ≤ length v)
    (long_w : 32 ≤ length w) where
  agree :
      (xs ys : List Bytes) (step : NodeStep)
      → ((rest : List ℕ) (h : Bytes)
          → mpt_loop keccak256 v rest h xs ≡ ok true
          → mpt_loop keccak256 w rest h ys ≡ ok true
          → (v ≡ w) ⊎ Collision keccak256)
      → Onwards keccak256 v xs step
      → Onwards keccak256 w ys step
      → (v ≡ w) ⊎ Collision keccak256
  agree xs ys (value x) rec p q = inl (sym p ∙ q)
  agree xs ys (descend h rest) rec p q = rec rest h p q
  agree xs ys rejected rec p q = absurd p

  mpt_loop-binding :
      (nibbles : List ℕ) (current : Bytes) (xs ys : List Bytes)
      → mpt_loop keccak256 v nibbles current xs ≡ ok true
      → mpt_loop keccak256 w nibbles current ys ≡ ok true
      → (v ≡ w) ⊎ Collision keccak256
  unfolding mpt_loop
  mpt_loop-binding nibbles current [] ys h h' = absurd (ground (arith, h))
  mpt_loop-binding nibbles current (x ∷ xs) [] h h' = absurd (ground (arith, h'))
  mpt_loop-binding nibbles current (x ∷ xs) (y ∷ ys) h h' =
      let (hash, (items, d, on)) = hash_checked keccak256 v nibbles current x xs long_v h in
      let (hash', (items', d', on')) = hash_checked keccak256 w nibbles current y ys long_w h' in
      elim (Bool-cases (bytes_eq x y)) [
        | inr differ ↦ inr (x, y, bytes_eq_ne x y differ, hash ∙ sym hash')
        | inl same ↦
            let one : items ≡ items' = cc (bytes_eq_sound x y same, d, d') in
            agree xs ys (node_step nibbles items) (λ rest next. mpt_loop-binding rest next xs ys) on
              (subst (λ l. Onwards keccak256 w ys (node_step nibbles l)) (sym one) on')
      ]

-- For one root and one key, two proofs that are accepted for values of at least 32 bytes are for
-- one value, or the hash has a collision.
pub verify_mpt_proof_binding :
    (keccak256 : Bytes → Bytes) (root key : Bytes) (xs ys : List Bytes) (v w : Bytes)
    → 32 ≤ length v
    → 32 ≤ length w
    → verify_mpt_proof keccak256 root key xs v ≡ ok true
    → verify_mpt_proof keccak256 root key ys w ≡ ok true
    → (v ≡ w) ⊎ Collision keccak256
unfolding verify_mpt_proof
verify_mpt_proof_binding keccak256 root key xs ys v w long_v long_w h h' =
    mpt_loop-binding keccak256 v w long_v long_w (bytes_to_nibbles key) root xs ys h h'
