-- ===== src/Mpt/Trie.antt =====
-- The check of a proof in a Merkle-Patricia trie. `keccak256` stands for the tiny-keccak crate; the
-- nibbles of the key are what is left of them from `nibble_pos` on.
use obscura_network.Prelude.{
  ℕ, ◌/◌, ◌%◌, Bool, false, not, ◌&&◌, List, [], ◌∷◌, ◌++◌, Bytes, ◌==◌, Bytes_Eq, length, take,
  drop, get_or, nat_eq, leb, ltb, if◌then◌else◌, Result, ok, err, ◌>>=◌,
}
use obscura_network.Mpt.Rlp.{RlpError, malformed, slice_panic, out_of_fuel, rlp_decode_list}

unfoldable pub bytes_to_nibbles : Bytes → List ℕ
bytes_to_nibbles [] = []
bytes_to_nibbles (b ∷ key) = (b / 16) ∷ ((b % 16) ∷ bytes_to_nibbles key)

unfoldable pub decode_hp : Bytes → Bool × List ℕ
decode_hp [] = (false, [])
decode_hp (b ∷ encoded) =
    let first_nibble = b / 16 % 16 in
    let is_odd = nat_eq (first_nibble % 2) 1 in
    (leb 2 first_nibble, (if is_odd then (b % 16) ∷ [] else []) ++ bytes_to_nibbles encoded)

-- What a node says of a path: a value, to be compared with the expected one; the hash of the next
-- node and what of the path is left for it; or that the path ends here.
pub data NodeStep : Type 0 where
  value : Bytes → NodeStep
  descend : Bytes → List ℕ → NodeStep
  rejected : NodeStep

unfoldable pub branch_step : List ℕ → List Bytes → NodeStep
branch_step [] items = value (get_or items 16 [])
branch_step (nibble ∷ nibbles) items =
    let child = get_or items nibble [] in
    if nat_eq (length child) 0
    then rejected
    else if nat_eq (length child) 32
    then descend child nibbles
    else rejected

unfoldable pub pair_step : List ℕ → Bytes → Bytes → NodeStep
pair_step nibbles encoded_path second =
    let (is_leaf, path_nibbles) = decode_hp encoded_path in
    let path_len = length path_nibbles in
    if ltb (length nibbles) path_len
    then rejected
    else if not (take path_len nibbles == path_nibbles)
    then rejected
    else if is_leaf
    then if nat_eq (length (drop path_len nibbles)) 0 then value second else rejected
    else if nat_eq (length second) 32
    then descend second (drop path_len nibbles)
    else rejected

-- `match items.len()`
unfoldable pub node_step : List ℕ → List Bytes → NodeStep
node_step nibbles items =
    if nat_eq (length items) 17
    then branch_step nibbles items
    else if nat_eq (length items) 2
    then pair_step nibbles (get_or items 0 []) (get_or items 1 [])
    else rejected

-- A node that cannot be decoded is no member of the trie.
unfoldable pub decoded_step : List ℕ → Result RlpError (List Bytes) → Result RlpError NodeStep
decoded_step nibbles (ok items) = ok (node_step nibbles items)
decoded_step nibbles (err malformed) = ok rejected
decoded_step nibbles (err slice_panic) = err slice_panic
decoded_step nibbles (err out_of_fuel) = err out_of_fuel

-- A node whose hash is not the expected one is passed over only if it is short.
unfoldable pub read_node : (Bytes → Bytes) → Bytes → List ℕ → Bytes → Result RlpError NodeStep
read_node keccak256 current_hash nibbles node_rlp =
    if not (keccak256 node_rlp == current_hash) && leb 32 (length node_rlp)
    then ok rejected
    else decoded_step nibbles (rlp_decode_list node_rlp)

-- The loop over the proof. An `err` is a panic of the decoder, or a loop of it without an end.
unfoldable pub mpt_loop :
    (Bytes → Bytes) → Bytes → List ℕ → Bytes → List Bytes → Result RlpError Bool
mpt_loop keccak256 expected_value nibbles current_hash [] = ok false
mpt_loop keccak256 expected_value nibbles current_hash (node_rlp ∷ proof) = do
  step ← read_node keccak256 current_hash nibbles node_rlp
  elim step [
    | value found ↦ ok (found == expected_value)
    | descend hash rest ↦ mpt_loop keccak256 expected_value rest hash proof
    | rejected ↦ ok false
  ]

unfoldable pub verify_mpt_proof :
    (Bytes → Bytes) → Bytes → Bytes → List Bytes → Bytes → Result RlpError Bool
verify_mpt_proof keccak256 root key proof expected_value =
    mpt_loop keccak256 expected_value (bytes_to_nibbles key) root proof
