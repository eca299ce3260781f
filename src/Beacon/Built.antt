-- ===== src/Beacon/Built.antt =====
-- The fields of the witness that `build_helios_witness` builds.
use obscura_network.Prelude.{
  ◌≡◌, sym, ap, ◌∙◌, true, Option, List, Bytes, length, drop, replicate, nat_eq, nat_eq_iff, ok,
  Ensures, returns, Ensures-bind, Ensures-guard, Ensures-use, ok_cancel, arith,
}
use obscura_network.Merkle.{zero_bytes}
use obscura_network.Merkle.Tree.{node, leaves_of}
use obscura_network.Merkle.Inclusion.{All32, siblings_of}
use obscura_network.Helios.Ssz.{verify_merkle_branch}
use obscura_network.Helios.Step.{HeliosWitness, exec_to_hash_depth, exec_to_hash_leaf_index}
use obscura_network.Helios.Binding.{IsWitness}
use obscura_network.Beacon.Types.{
  wrong_length, LightClientFinalityUpdateJson, GenesisConfigJson, ExecutionPayloadHeaderJson,
}
use obscura_network.Beacon.Parse.{
  hex_decode, parse_bytes32, parse_fork_version, parse_branch_6, parse_branch_4,
  parse_beacon_header,
}
use obscura_network.Beacon.Ssz.{
  ssz_execution_payload_root, merkle_branch_32, merkle_root_vec, payload_leaves,
}
use obscura_network.Beacon.Levels.{
  merkle_root_vec-node, merkle_branch_32-siblings_of, siblings_of-verify, length-node_above,
  All32-path,
}
use obscura_network.Beacon.Payload.{
  IsPayload, payload_leaves-IsPayload, parse_branch_6-All32, parse_branch_4-All32,
  parse_beacon_header-IsHeader, length-parse_bytes32,
}
use obscura_network.Beacon.Witness.{build_helios_witness}

module _ (sha256 : Bytes → Bytes) (hex : Bytes → Option Bytes) where
  -- The payload's root is that of the tree over its leaves, which come back with it.
  pub record IsRooted (exec : ExecutionPayloadHeaderJson) (payload : Bytes × List Bytes)
      : Type 0 where
    pub leaves : IsPayload hex exec payload.1
    pub root : payload.0 ≡ node sha256 (leaves_of payload.1) 5 0

  payload_root-IsRooted :
      (exec : ExecutionPayloadHeaderJson)
      → Ensures (IsRooted exec) (ssz_execution_payload_root sha256 hex exec)
  unfolding ssz_execution_payload_root
  payload_root-IsRooted exec = Ensures-bind (payload_leaves sha256 hex exec) _ λ leaves is_leaves.
      let full : IsPayload hex exec leaves =
        Ensures-use leaves (payload_leaves-IsPayload hex sha256 exec) is_leaves in
      Ensures-bind (merkle_root_vec sha256 leaves) _ λ root is_root.
        returns (root, leaves)
          (record {
            leaves = full;
            root = ok_cancel (sym is_root ∙ merkle_root_vec-node sha256 leaves full.count);
          })

  module _ (sized : (x : Bytes) → length (sha256 x) ≡ 32) where
    -- A witness that the program takes: its fields have their widths, the branch from the payload's
    -- root to the block's hash is accepted, and the payload's root is over leaves of which the last
    -- 15 are zeros.
    pub record IsBuilt (w : HeliosWitness) : Type 0 where
      pub witness : IsWitness w
      pub in_payload :
          verify_merkle_branch sha256 w.execution_block_hash w.exec_to_hash_branch
            exec_to_hash_depth exec_to_hash_leaf_index w.execution_payload_root
          ≡ true
      pub leaves : List Bytes
      pub padding : drop 17 leaves ≡ replicate 15 zero_bytes
      pub root : w.execution_payload_root ≡ node sha256 (leaves_of leaves) 5 0
      pub signature : length w.sync_aggregate_signature ≡ 96

    -- The path that is made for leaf 12.
    block_path :
        (exec : ExecutionPayloadHeaderJson) (payload : Bytes × List Bytes) (path : List Bytes)
        (block : Bytes)
        → IsRooted exec payload
        → merkle_branch_32 sha256 payload.1 12 ≡ ok path
        → parse_bytes32 hex exec.block_hash ≡ ok block
        → All32 path × (verify_merkle_branch sha256 block path 5 12 payload.0 ≡ true)
    block_path exec payload path block rooted is_path is_block =
        let made : path ≡ siblings_of sha256 (leaves_of payload.1) 5 0 12 = ok_cancel (
          sym is_path
          ∙ merkle_branch_32-siblings_of sha256 payload.1 rooted.leaves.count 12 (omega arith)) in
        let hash : block ≡ leaves_of payload.1 12 =
          ok_cancel (sym is_block ∙ rooted.leaves.block_hash) in
        (
          rw made (All32-path sha256 sized (leaves_of payload.1) 4 12 rooted.leaves.neighbour),
          rw (hash, made, rooted.root)
              (siblings_of-verify sha256 payload.1 rooted.leaves.count 12 (omega arith)),
        )

    IsBuilt-build :
        (update : LightClientFinalityUpdateJson) (genesis : GenesisConfigJson) (pubkey prev : Bytes)
        → Ensures IsBuilt (build_helios_witness sha256 hex update genesis pubkey prev)
    unfolding build_helios_witness
    IsBuilt-build update genesis pubkey prev =
        Ensures-bind (parse_beacon_header hex update.attested_header.beacon) _ λ _ _.
          Ensures-bind (parse_beacon_header hex update.finalized_header.beacon) _
            λ header is_header.
              Ensures-bind (parse_branch_6 hex update.finality_branch) _ λ finality is_finality.
                Ensures-bind (hex_decode hex update.sync_aggregate.sync_committee_bits) _ λ _ _.
                  Ensures-bind (hex_decode hex update.sync_aggregate.sync_committee_signature) _
                    λ sig _. Ensures-guard (nat_eq (length sig) 96) wrong_length _ λ is_96.
                      Ensures-bind (parse_fork_version hex genesis.genesis_fork_version) _ λ _ _.
                        Ensures-bind (parse_bytes32 hex genesis.genesis_validators_root) _ λ _ _.
                          Ensures-bind (parse_branch_4 hex update.finalized_header.execution_branch)
                            _
                            λ body is_body.
                              Ensures-bind
                                (ssz_execution_payload_root sha256 hex
                                  update.finalized_header.execution)
                                _
                                λ payload is_payload.
                                  Ensures-bind (merkle_branch_32 sha256 payload.1 12) _
                                    λ path is_path.
                                      Ensures-bind
                                        (parse_bytes32 hex
                                          update.finalized_header.execution.block_hash)
                                        _
                                        λ block is_block.
                                          let rooted : IsRooted update.finalized_header.execution
                                              payload =
                                            Ensures-use payload
                                              (payload_root-IsRooted
                                                update.finalized_header.execution)
                                              is_payload in
                                          let (sized_path, accepted) =
                                            block_path update.finalized_header.execution payload
                                              path block rooted is_path is_block in
                                          returns _ (record {
                                            witness = record {
                                              finalized =
                                                  parse_beacon_header-IsHeader hex
                                                    update.finalized_header.beacon header is_header;
                                              payload_root =
                                                  ap length rooted.root
                                                  ∙ length-node_above sha256 sized
                                                      (leaves_of payload.1) 4 0;
                                              block_hash =
                                                  length-parse_bytes32 hex
                                                    update.finalized_header.execution.block_hash
                                                    block is_block;
                                              finality =
                                                  parse_branch_6-All32 hex update.finality_branch
                                                    finality is_finality;
                                              body_to_exec =
                                                  parse_branch_4-All32 hex
                                                    update.finalized_header.execution_branch body
                                                    is_body;
                                              exec_to_hash = sized_path;
                                            };
                                            in_payload = accepted;
                                            leaves = payload.1;
                                            padding = rooted.leaves.padding;
                                            root = rooted.root;
                                            signature = (nat_eq_iff _ _).0 is_96;
                                          })

    pub build_helios_witness-IsBuilt :
        (update : LightClientFinalityUpdateJson) (genesis : GenesisConfigJson) (pubkey prev : Bytes)
        (w : HeliosWitness)
        → build_helios_witness sha256 hex update genesis pubkey prev ≡ ok w
        → IsBuilt w
    build_helios_witness-IsBuilt update genesis pubkey prev w h =
        Ensures-use w (IsBuilt-build update genesis pubkey prev) h
