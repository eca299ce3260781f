-- ===== src/Beacon/Payload.antt =====
-- The results of the parsing helpers of beacon_api.rs, and the leaves of an execution payload.
use obscura_network.Prelude.{
  ℕ, Option-cases, inl, inr, ◌^◌, ◌≡◌, ◌<◌, refl, Option, List, [], ◌∷◌, Bytes, length, drop,
  nat_eq, nat_eq_iff, replicate, ok, Ensures, returns, Ensures-bind, Ensures-use, Ensures-guard,
  leb, arith,
}
use obscura_network.Merkle.{zero_bytes}
use obscura_network.Merkle.Tree.{leaves_of}
use obscura_network.Merkle.Inclusion.{All32}
use obscura_network.Helios.Ssz.{BeaconBlockHeader}
use obscura_network.Helios.Binding.{IsHeader}
use obscura_network.Beacon.Types.{wrong_length, BeaconHeaderJson, ExecutionPayloadHeaderJson}
use obscura_network.Text.{parse_u64, parse_u64-lt}
use obscura_network.Beacon.Parse.{
  parse_number, hex_decode, parse_bytes32, parse_nodes, parse_branch_6, parse_branch_4,
  parse_beacon_header, parse_uint256_le,
}
use obscura_network.Beacon.Ssz.{payload_leaves, ssz_bytes_vector_root, ssz_byte_list_root}

pub parse_number-lt : (s : Bytes) (n : ℕ) → parse_number s ≡ ok n → n < 2 ^ 64
unfolding parse_number
parse_number-lt s n e = elim (Option-cases (parse_u64 s)) [
  | inl q ↦ absurd (cc (rw q at e))
  | inr (m, q) ↦ parse_u64-lt s n (ground (arith, q))
]

module _ (hex : Bytes → Option Bytes) where
  parse_bytes32-Ensures : (s : Bytes) → Ensures (λ b. length b ≡ 32) (parse_bytes32 hex s)
  unfolding parse_bytes32
  parse_bytes32-Ensures s = Ensures-bind (hex_decode hex s) _ λ bytes _.
      Ensures-guard (nat_eq (length bytes) 32) wrong_length _
        λ g. returns bytes ((nat_eq_iff _ _).0 g)

  pub length-parse_bytes32 : (s b : Bytes) → parse_bytes32 hex s ≡ ok b → length b ≡ 32
  length-parse_bytes32 s b h = Ensures-use b (parse_bytes32-Ensures s) h

  parse_nodes-Ensures : (l : List Bytes) → Ensures All32 (parse_nodes hex l)
  unfolding parse_nodes
  parse_nodes-Ensures [] = returns [] tt
  parse_nodes-Ensures (s ∷ l) = Ensures-bind (parse_bytes32 hex s) _ λ node h.
      Ensures-bind (parse_nodes hex l) _ λ rest k.
        returns (node ∷ rest)
          (length-parse_bytes32 s node h, Ensures-use rest (parse_nodes-Ensures l) k)

  -- The block hash is leaf 12, its neighbour has 32 bytes, and the leaves behind the fields are
  -- zeros.
  pub record IsPayload (exec : ExecutionPayloadHeaderJson) (leaves : List Bytes) : Type 0 where
    pub count : length leaves ≡ 32
    pub block_hash : parse_bytes32 hex exec.block_hash ≡ ok (leaves_of leaves 12)
    pub neighbour : length (leaves_of leaves 13) ≡ 32
    pub padding : drop 17 leaves ≡ replicate 15 zero_bytes

  module _ (sha256 : Bytes → Bytes) where
    pub payload_leaves-IsPayload :
        (exec : ExecutionPayloadHeaderJson)
        → Ensures (IsPayload exec) (payload_leaves sha256 hex exec)
    unfolding payload_leaves
    payload_leaves-IsPayload exec = Ensures-bind (parse_bytes32 hex exec.parent_hash) _ λ _ _.
        Ensures-bind (hex_decode hex exec.fee_recipient) _ λ fee _.
          Ensures-guard (nat_eq (length fee) 20) wrong_length _ λ _.
            Ensures-bind (parse_bytes32 hex exec.state_root) _ λ _ _.
              Ensures-bind (parse_bytes32 hex exec.receipts_root) _ λ _ _.
                Ensures-bind (hex_decode hex exec.logs_bloom) _ λ bloom _.
                  Ensures-guard (nat_eq (length bloom) 256) wrong_length _ λ _.
                    Ensures-bind (ssz_bytes_vector_root sha256 bloom) _ λ _ _.
                      Ensures-bind (parse_bytes32 hex exec.prev_randao) _ λ _ _.
                        Ensures-bind (parse_number exec.block_number) _ λ _ _.
                          Ensures-bind (parse_number exec.gas_limit) _ λ _ _.
                            Ensures-bind (parse_number exec.gas_used) _ λ _ _.
                              Ensures-bind (parse_number exec.timestamp) _ λ _ _.
                                Ensures-bind (hex_decode hex exec.extra_data) _ λ extra _.
                                  Ensures-guard (leb (length extra) 32) wrong_length _ λ _.
                                    Ensures-bind (ssz_byte_list_root sha256 extra 1) _ λ _ _.
                                      Ensures-bind (parse_uint256_le hex exec.base_fee_per_gas) _
                                        λ _ _.
                                          Ensures-bind (parse_bytes32 hex exec.block_hash) _
                                            λ block_hash is_hash.
                                              Ensures-bind
                                                (parse_bytes32 hex exec.transactions_root) _
                                                λ transactions_root is_root.
                                                  Ensures-bind
                                                    (parse_bytes32 hex exec.withdrawals_root) _
                                                    λ _ _.
                                                      Ensures-bind (parse_number exec.blob_gas_used)
                                                        _
                                                        λ _ _.
                                                          Ensures-bind
                                                            (parse_number exec.excess_blob_gas) _
                                                            λ _ _. returns _ (record {
                                                            count = refl;
                                                            block_hash = is_hash;
                                                            neighbour =
                                                            length-parse_bytes32
                                                            exec.transactions_root transactions_root
                                                            is_root;
                                                            padding = refl;
                                                            })

  parse_branch_6-Ensures : (l : List Bytes) → Ensures All32 (parse_branch_6 hex l)
  unfolding parse_branch_6
  parse_branch_6-Ensures l =
      Ensures-guard (nat_eq (length l) 6) wrong_length _ λ _. parse_nodes-Ensures l

  parse_branch_4-Ensures : (l : List Bytes) → Ensures All32 (parse_branch_4 hex l)
  unfolding parse_branch_4
  parse_branch_4-Ensures l =
      Ensures-guard (nat_eq (length l) 4) wrong_length _ λ _. parse_nodes-Ensures l

  parse_beacon_header-Ensures :
      (h : BeaconHeaderJson) → Ensures IsHeader (parse_beacon_header hex h)
  unfolding parse_beacon_header
  parse_beacon_header-Ensures h = Ensures-bind (parse_number h.slot) _ λ slot is_slot.
      Ensures-bind (parse_number h.proposer_index) _ λ _ _.
        Ensures-bind (parse_bytes32 hex h.parent_root) _ λ _ _.
          Ensures-bind (parse_bytes32 hex h.state_root) _ λ _ _.
            Ensures-bind (parse_bytes32 hex h.body_root) _ λ body_root is_root. returns _ (record {
              slot = parse_number-lt h.slot slot is_slot;
              body_root = length-parse_bytes32 h.body_root body_root is_root;
            })

  -- In the form in which the witness is taken apart.
  pub parse_branch_6-All32 : (l m : List Bytes) → parse_branch_6 hex l ≡ ok m → All32 m
  parse_branch_6-All32 l m e = Ensures-use m (parse_branch_6-Ensures l) e

  pub parse_branch_4-All32 : (l m : List Bytes) → parse_branch_4 hex l ≡ ok m → All32 m
  parse_branch_4-All32 l m e = Ensures-use m (parse_branch_4-Ensures l) e

  pub parse_beacon_header-IsHeader :
      (h : BeaconHeaderJson) (g : BeaconBlockHeader) → parse_beacon_header hex h ≡ ok g → IsHeader g
  parse_beacon_header-IsHeader h g e = Ensures-use g (parse_beacon_header-Ensures h) e
