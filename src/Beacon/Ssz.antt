-- ===== src/Beacon/Ssz.antt =====
-- The hash tree root of an execution payload's header and the branches of its tree, in
-- beacon_api.rs. An assertion that fails and an index out of bounds are panics.
use obscura_network.Prelude.{
  ℕ, zero, suc, ◌/◌, ◌&&◌, not, Option, List, [], ◌∷◌, ◌++◌, Bytes, map, length, get_elem?, take,
  drop, replicate, nat_eq, leb, ltb, if◌then◌else◌, Result, ok, err, ◌>>=◌, ◌>>◌, guard,
}
use obscura_network.Merkle.{zero_bytes}
use obscura_network.Merkle.Inclusion.{sibling}
use obscura_network.Privacy.Types.{to_le_bytes}
use obscura_network.Sanctions.Power.{next_power_of_two}
use obscura_network.Helios.Ssz.{uint64_leaf, sha256_pair}
use obscura_network.Beacon.Types.{
  Failure, panicked, wrong_length, or_fail, ExecutionPayloadHeaderJson,
}
use obscura_network.Beacon.Parse.{parse_number, hex_decode, parse_bytes32, parse_uint256_le}

-- `chunks(32)`, with a round for each byte.
unfoldable pub chunks_loop : ℕ → Bytes → List Bytes
chunks_loop zero bytes = []
chunks_loop (suc fuel) [] = []
chunks_loop (suc fuel) (b ∷ bytes) = take 32 (b ∷ bytes) ∷ chunks_loop fuel (drop 32 (b ∷ bytes))

unfoldable pub chunks : Bytes → List Bytes
unfolding chunks_loop
chunks bytes = chunks_loop (length bytes) bytes

-- `leaf[..chunk.len()].copy_from_slice(chunk)`
unfoldable pub overwrite : Bytes → Bytes → Bytes
overwrite leaf chunk = chunk ++ drop (length chunk) leaf

-- The chunks, over the leaves from the first on; a chunk that has no leaf is left out.
unfoldable pub write_chunks : List Bytes → List Bytes → List Bytes
unfolding overwrite
write_chunks [] written = []
write_chunks (leaf ∷ leaves) [] = leaf ∷ leaves
write_chunks (leaf ∷ leaves) (chunk ∷ written) = overwrite leaf chunk ∷ write_chunks leaves written

module _ (sha256 : Bytes → Bytes) where
  -- `for i in (0..level.len()).step_by(2)`
  unfoldable pub next_level : List Bytes → Result Failure (List Bytes)
  next_level [] = ok []
  next_level (a ∷ []) = err panicked
  next_level (a ∷ b ∷ level) = next_level level >>= λ next. ok (sha256_pair sha256 a b ∷ next)

  -- `while level.len() > 1`, then `level[0]`; a level has at most half of the length below.
  unfoldable pub root_loop : ℕ → List Bytes → Result Failure Bytes
  root_loop zero level = or_fail (get_elem? level 0) panicked
  root_loop (suc fuel) level =
      let above = next_level level >>= λ next. root_loop fuel next in
      if ltb 1 (length level) then above else or_fail (get_elem? level 0) panicked

  unfoldable pub merkle_root_vec : List Bytes → Result Failure Bytes
  merkle_root_vec level = do
    guard
        (not (nat_eq (length level) 0) && nat_eq (next_power_of_two (length level)) (length level))
        panicked
    root_loop (length level) level

  -- `for depth in 0..5`, for the rounds that are left.
  unfoldable pub branch_rounds : ℕ → List Bytes → ℕ → Result Failure (List Bytes)
  branch_rounds zero level idx = ok []
  branch_rounds (suc rounds) level idx = do
    node ← or_fail (get_elem? level (sibling idx)) panicked
    next ← next_level level
    rest ← branch_rounds rounds next (idx / 2)
    ok (node ∷ rest)

  unfoldable pub merkle_branch_32 : List Bytes → ℕ → Result Failure (List Bytes)
  merkle_branch_32 leaves leaf_index = branch_rounds 5 leaves leaf_index

  unfoldable pub ssz_bytes_vector_root : Bytes → Result Failure Bytes
  unfolding overwrite chunks
  ssz_bytes_vector_root bytes = merkle_root_vec (map (overwrite zero_bytes) (chunks bytes))

  unfoldable pub ssz_byte_list_root : Bytes → ℕ → Result Failure Bytes
  unfolding write_chunks chunks to_le_bytes
  ssz_byte_list_root bytes max_chunks = do
    let tree_size = next_power_of_two max_chunks
    chunk_root ← merkle_root_vec (write_chunks (replicate tree_size zero_bytes) (chunks bytes))
    let len_leaf = overwrite zero_bytes (to_le_bytes 8 (length bytes))
    ok (sha256_pair sha256 chunk_root len_leaf)

  module _ (hex : Bytes → Option Bytes) where
    -- The 17 fields in their order; the other leaves are zeros.
    unfoldable pub payload_leaves : ExecutionPayloadHeaderJson → Result Failure (List Bytes)
    payload_leaves exec = do
      parent_hash ← parse_bytes32 hex exec.parent_hash
      fee ← hex_decode hex exec.fee_recipient
      guard (nat_eq (length fee) 20) wrong_length
      state_root ← parse_bytes32 hex exec.state_root
      receipts_root ← parse_bytes32 hex exec.receipts_root
      bloom ← hex_decode hex exec.logs_bloom
      guard (nat_eq (length bloom) 256) wrong_length
      bloom_root ← ssz_bytes_vector_root bloom
      prev_randao ← parse_bytes32 hex exec.prev_randao
      block_number ← parse_number exec.block_number
      gas_limit ← parse_number exec.gas_limit
      gas_used ← parse_number exec.gas_used
      timestamp ← parse_number exec.timestamp
      extra ← hex_decode hex exec.extra_data
      guard (leb (length extra) 32) wrong_length
      extra_root ← ssz_byte_list_root extra 1
      base_fee ← parse_uint256_le hex exec.base_fee_per_gas
      block_hash ← parse_bytes32 hex exec.block_hash
      transactions_root ← parse_bytes32 hex exec.transactions_root
      withdrawals_root ← parse_bytes32 hex exec.withdrawals_root
      blob_gas_used ← parse_number exec.blob_gas_used
      excess_blob_gas ← parse_number exec.excess_blob_gas
      ok (
          parent_hash
          ∷ overwrite zero_bytes fee
          ∷ state_root
          ∷ receipts_root
          ∷ bloom_root
          ∷ prev_randao
          ∷ uint64_leaf block_number
          ∷ uint64_leaf gas_limit
          ∷ uint64_leaf gas_used
          ∷ uint64_leaf timestamp
          ∷ extra_root
          ∷ base_fee
          ∷ block_hash
          ∷ transactions_root
          ∷ withdrawals_root
          ∷ uint64_leaf blob_gas_used
          ∷ uint64_leaf excess_blob_gas
          ∷ replicate 15 zero_bytes)

    unfoldable pub ssz_execution_payload_root :
        ExecutionPayloadHeaderJson → Result Failure (Bytes × List Bytes)
    ssz_execution_payload_root exec = do
      leaves ← payload_leaves exec
      root ← merkle_root_vec leaves
      ok (root, leaves)
