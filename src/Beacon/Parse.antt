-- ===== src/Beacon/Parse.antt =====
-- The parsing helpers of beacon_api.rs. `hex` stands for `hex::decode`.
use mathlib.Core.List.{reverse}
use obscura_network.Prelude.{
  ℕ, ◌||◌, Bool, Option, List, [], ◌∷◌, ◌++◌, Bytes, length, take, replicate, nat_eq, if◌then◌else◌,
  Result, ok, ◌>>=◌, ◌>>◌, guard,
}
use obscura_network.Bridge.Keys.{trim}
use obscura_network.Bridge.Verifier.{starts_with}
use obscura_network.Helios.Ssz.{BeaconBlockHeader}
use obscura_network.Privacy.Types.{to_le_bytes}
use obscura_network.Text.{trim_start_matches, parse_u64, parse_u128}
use obscura_network.Beacon.Types.{
  Failure, bad_hex, bad_number, wrong_length, or_fail, BeaconHeaderJson,
}

unfoldable pub parse_number : Bytes → Result Failure ℕ
parse_number s = or_fail (parse_u64 s) bad_number

abbrev pub is_empty_text : Bytes → Bool
is_empty_text s = nat_eq (length s) 0

module _ (hex : Bytes → Option Bytes) where
  unfoldable pub hex_decode : Bytes → Result Failure Bytes
  unfolding trim trim_start_matches
  hex_decode s =
      let digits = trim_start_matches b'0' b'X' (trim_start_matches b'0' b'x' (trim s)) in
      if is_empty_text digits then ok [] else or_fail (hex digits) bad_hex

  unfoldable pub parse_bytes32 : Bytes → Result Failure Bytes
  parse_bytes32 s = do bytes ← hex_decode s; guard (nat_eq (length bytes) 32) wrong_length; ok bytes

  unfoldable pub parse_fork_version : Bytes → Result Failure Bytes
  parse_fork_version s = do
    bytes ← hex_decode s
    guard (nat_eq (length bytes) 4) wrong_length
    ok bytes

  -- `for (i, s) in nodes.iter().enumerate()`
  unfoldable pub parse_nodes : List Bytes → Result Failure (List Bytes)
  parse_nodes [] = ok []
  parse_nodes (s ∷ nodes) =
      parse_bytes32 s >>= λ node. parse_nodes nodes >>= λ rest. ok (node ∷ rest)

  unfoldable pub parse_branch_6 : List Bytes → Result Failure (List Bytes)
  parse_branch_6 nodes = do guard (nat_eq (length nodes) 6) wrong_length; parse_nodes nodes

  unfoldable pub parse_branch_4 : List Bytes → Result Failure (List Bytes)
  parse_branch_4 nodes = do guard (nat_eq (length nodes) 4) wrong_length; parse_nodes nodes

  unfoldable pub parse_beacon_header : BeaconHeaderJson → Result Failure BeaconBlockHeader
  parse_beacon_header h = do
    slot ← parse_number h.slot
    proposer_index ← parse_number h.proposer_index
    parent_root ← parse_bytes32 h.parent_root
    state_root ← parse_bytes32 h.state_root
    body_root ← parse_bytes32 h.body_root
    ok (record {
      slot = slot;
      proposer_index = proposer_index;
      parent_root = parent_root;
      state_root = state_root;
      body_root = body_root;
    })

  -- Hexadecimal, of which the last 32 bytes count, or decimal below 2^128; the lowest byte first.
  unfoldable pub parse_uint256_le : Bytes → Result Failure Bytes
  unfolding starts_with to_le_bytes trim
  parse_uint256_le text =
      let s = trim text in
      if starts_with s (b'0' ∷ b'x' ∷ []) || starts_with s (b'0' ∷ b'X' ∷ [])
      then (hex_decode s >>= λ b. ok (take 32 (reverse b ++ replicate 32 0)))
      else (or_fail (parse_u128 s) bad_number >>= λ v. ok (to_le_bytes 16 v ++ replicate 16 0))
