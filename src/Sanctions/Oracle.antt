-- ===== src/Sanctions/Oracle.antt =====
-- The sorted Merkle tree of sanctioned addresses and the witness that an address is not in it.
-- `sha256` stands for the sha2 crate; an index out of bounds is an outcome of its own.
use obscura_network.Prelude.{
  ℕ, zero, suc, ◌+◌, ◌-◌, ◌/◌, ◌%◌, Bool, false, not, Option, some, none, List, [], ◌∷◌, ◌++◌,
  Bytes, map, ◌==◌, Bytes_Eq, length, get_elem?, replicate, nat_eq, ltb, if◌then◌else◌, Result, ok,
  err, ◌>>=◌, ◌>>◌, guard,
}
use obscura_network.Merkle.{zero_bytes}
use obscura_network.Merkle.Binding.{tagged}
use obscura_network.Sanctions.Order.{bytes_ltb}
use obscura_network.Sanctions.Sort.{sort, dedup, resize, contains}
use obscura_network.Sanctions.Power.{next_power_of_two, trailing_zeros}

abbrev pub max_bytes : Bytes
max_bytes = replicate 32 255

-- b"addr", b"leaf" and b"node"
abbrev pub addr_tag : Bytes
addr_tag = b'a' ∷ b'd' ∷ b'd' ∷ b'r' ∷ []

abbrev pub leaf_tag : Bytes
leaf_tag = b'l' ∷ b'e' ∷ b'a' ∷ b'f' ∷ []

abbrev pub node_tag : Bytes
node_tag = b'n' ∷ b'o' ∷ b'd' ∷ b'e' ∷ []

module _ (sha256 : Bytes → Bytes) where
  unfoldable pub hash_addr : Bytes → Bytes
  hash_addr addr = tagged sha256 addr_tag addr

  unfoldable pub hash_leaf : Bytes → Bytes
  hash_leaf addr_hash = tagged sha256 leaf_tag addr_hash

  unfoldable pub hash_node : Bytes → Bytes → Bytes
  hash_node left right = tagged sha256 node_tag (left ++ right)

pub record SanctionsMerkleTree : Type 0 where
  pub sorted_addr_hashes : List Bytes
  pub levels : List (List Bytes)
  pub depth : ℕ

pub record InclusionProof : Type 0 where
  pub addr_hash : Bytes
  pub index : ℕ
  pub siblings : List Bytes

pub record NonMembershipWitness : Type 0 where
  pub sanctions_root : Bytes
  pub left_leaf : Bytes
  pub right_leaf : Bytes
  pub left_proof : List Bytes
  pub right_proof : List Bytes
  pub left_index : ℕ
  pub right_index : ℕ
  pub tree_depth : ℕ

-- The two errors of `non_membership_witness`, and the panic on an index out of bounds.
pub data OracleError : Type 0 where
  listed below_all out_of_bounds : OracleError

abbrev pub or_panic {ℓ} : {A : Type ℓ} → Option A → Result OracleError A
or_panic none = err out_of_bounds
or_panic (some a) = ok a

-- `chunks(2)` and `hash_node(&pair[0], &pair[1])` on each: a chunk of one has no second.
unfoldable pub pair_up : (Bytes → Bytes) → List Bytes → Result OracleError (List Bytes)
pair_up sha256 [] = ok []
pair_up sha256 (a ∷ []) = err out_of_bounds
pair_up sha256 (a ∷ b ∷ l) = pair_up sha256 l >>= λ next. ok (hash_node sha256 a b ∷ next)

-- `while current.len() > 1`: the levels above `current`, itself the first.
unfoldable pub levels_loop :
    ℕ → (Bytes → Bytes) → List Bytes → Result OracleError (List (List Bytes))
levels_loop zero sha256 current = ok (current ∷ [])
levels_loop (suc fuel) sha256 current =
    let above = pair_up sha256 current >>= λ next. levels_loop fuel sha256 next in
    if ltb 1 (length current)
    then above >>= (λ levels. ok (current ∷ levels))
    else ok (current ∷ [])

-- The vector of hashes when it has been sorted, before it is padded.
unfoldable pub listed_hashes : (Bytes → Bytes) → List Bytes → List Bytes
listed_hashes sha256 addresses =
    dedup (sort (map (hash_addr sha256) addresses ++ zero_bytes ∷ max_bytes ∷ []))

unfoldable pub build : (Bytes → Bytes) → List Bytes → Result OracleError SanctionsMerkleTree
build sha256 addresses =
    let hashes = listed_hashes sha256 addresses in
    let tree_size = next_power_of_two (length hashes) in
    let addr_hashes = resize tree_size max_bytes hashes in
    let leaf_level = map (hash_leaf sha256) addr_hashes in
    levels_loop (length leaf_level) sha256 leaf_level >>= λ levels.
    ok (record {
      sorted_addr_hashes = addr_hashes;
      levels = levels;
      depth = trailing_zeros tree_size;
    })

-- `levels.last().unwrap()[0]`
unfoldable pub last_first : List (List Bytes) → Option Bytes
last_first [] = none
last_first (level ∷ []) = get_elem? level 0
last_first (level ∷ above ∷ levels) = last_first (above ∷ levels)

unfoldable pub root : SanctionsMerkleTree → Result OracleError Bytes
root tree = or_panic (last_first tree.levels)

-- The loop over all levels but the last.
unfoldable pub proof_loop : ℕ → List (List Bytes) → Result OracleError (List Bytes)
proof_loop idx [] = err out_of_bounds
proof_loop idx (level ∷ []) = ok []
proof_loop idx (level ∷ above ∷ levels) = do
  let sibling_idx = if nat_eq (idx % 2) 0 then idx + 1 else idx - 1
  sibling ← or_panic (get_elem? level sibling_idx)
  siblings ← proof_loop (idx / 2) (above ∷ levels)
  ok (sibling ∷ siblings)

unfoldable pub inclusion_proof : SanctionsMerkleTree → ℕ → Result OracleError InclusionProof
inclusion_proof tree index = do
  siblings ← proof_loop index tree.levels
  addr_hash ← or_panic (get_elem? tree.sorted_addr_hashes index)
  ok (record { addr_hash = addr_hash; index = index; siblings = siblings })

-- How many elements come before the first that is not less than `h`.
unfoldable pub partition_point : Bytes → List Bytes → ℕ
partition_point h [] = 0
partition_point h (x ∷ l) = if bytes_ltb x h then suc (partition_point h l) else 0

-- `pos < v.len() && v[pos] == h`
abbrev pub stands_at : Bytes → Option Bytes → Bool
stands_at h none = false
stands_at h (some x) = x == h

unfoldable pub non_membership_witness :
    (Bytes → Bytes) → SanctionsMerkleTree → Bytes → Result OracleError NonMembershipWitness
non_membership_witness sha256 tree address = do
  let addr_hash = hash_addr sha256 address
  let pos = partition_point addr_hash tree.sorted_addr_hashes
  guard (not (stands_at addr_hash (get_elem? tree.sorted_addr_hashes pos))) listed
  guard (not (nat_eq pos 0)) below_all
  left_proof ← inclusion_proof tree (pos - 1)
  right_proof ← inclusion_proof tree pos
  sanctions_root ← root tree
  left_leaf ← or_panic (get_elem? tree.sorted_addr_hashes (pos - 1))
  right_leaf ← or_panic (get_elem? tree.sorted_addr_hashes pos)
  ok (record {
    sanctions_root = sanctions_root;
    left_leaf = left_leaf;
    right_leaf = right_leaf;
    left_proof = left_proof.siblings;
    right_proof = right_proof.siblings;
    left_index = pos - 1;
    right_index = pos;
    tree_depth = tree.depth;
  })

-- `binary_search(..).is_ok()`, which on a sorted vector says whether the value is in it.
unfoldable pub is_sanctioned : (Bytes → Bytes) → SanctionsMerkleTree → Bytes → Bool
is_sanctioned sha256 tree address = contains (hash_addr sha256 address) tree.sorted_addr_hashes
