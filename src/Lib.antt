-- ===== src/Lib.antt =====
-- Obscura Network: a rollup with a shielded pool of notes, and a bridge that moves USDC from
-- Ethereum into it.
--
-- The program's parts. `crates/privacy` is the pool: a note's commitment is a leaf of an
-- incremental Merkle tree, a spent note leaves its nullifier, and four calls (shield, transfer,
-- unshield, update_sanctions_root) change the state. `crates/zk-bridge` is the bridge: a deposit
-- on Ethereum is claimed by a proof, which inserts a commitment in the pool's tree and raises
-- its supply; a claimed deposit is withdrawn by a record for the relayer; and a light client's
-- head moves forward by proofs, so that a claim names a finalized block. `crates/stf` is the
-- runtime, which hands each call to its module. `crates/provers` has the programs whose runs the
-- proofs of a transfer, an unshield and a compliance report attest, of a sanctions check, of a
-- step of the light client, of a deposit on Ethereum, and of a transfer together with a
-- sanctions check. `crates/sanctions-oracle` keeps the sorted tree of sanctioned addresses,
-- which its server loads from the list of the treasury, and hands out the witnesses that the
-- program of the sanctions check reads. Off chain too is the relayer of `crates/zk-bridge`,
-- which scans Ethereum for deposits, claims each of them from the bridge, and once an epoch
-- builds a witness of the light client from the beacon API and sends the new head; and the host
-- side of `crates/privacy`, which hands notes to the programs and verifies the combined proof.
--
-- The files. `Merkle` is crates/privacy/src/merkle.rs: `hash_pair`, `zero_value`,
-- `compute_insert`, `MerkleProof::verify` and `build_proof_paths` under their names, with
-- `Merkle.Tree` the complete binary tree that they are measured against. `Privacy` is the rest
-- of crates/privacy/src: `Types` (types.rs and the messages of lib.rs), `Zk` (zk/mod.rs),
-- `State` (the state of `ObscuraPrivacy`, genesis, `insert_commitment`, `is_known_root`) and
-- `Handlers` (`call` and its four handlers). `Bridge` is crates/zk-bridge/src: `Types`
-- (types.rs, helios_types.rs and the state of module.rs), `Keys` (the keys of its maps),
-- `Verifier` (verifier.rs and helios.rs) and `Handlers` (genesis, `call`, its three handlers and
-- `update_config`). `Runtime` has the successful calls of both modules as steps. `Circuits` is
-- crates/provers/sp1/guest-privacy/src: the main functions of bin/transfer.rs, bin/unshield.rs
-- and bin/compliance.rs from the witness to the public values. `Sanctions` is
-- crates/sanctions-oracle/src/lib.rs (`Oracle`, with `Sort` and `Power` for what it takes of the
-- standard library, and `Order` for the order of byte arrays) and bin/sanctions.rs of
-- guest-privacy (`Circuit`). `Helios` is crates/provers/sp1/guest-helios/src: `Ssz` (ssz.rs) and
-- `Step` (types.rs and bin/helios_step.rs). `Mpt` is crates/provers/sp1/guest-bridge/src: `Rlp`
-- and `Trie` (mpt.rs), `Encode` and `Deposit` (types.rs and bin/eth_deposit.rs). `Combined` is
-- crates/provers/sp1/guest-combined/src, with `Verifier` the verification of
-- crates/privacy/src/combined_prover.rs. `Provers` is crates/privacy/src/sp1_prover.rs. `Beacon`
-- is crates/zk-bridge/src/beacon_api.rs: `Types` (the JSON records), `Parse`, `Ssz` and
-- `Witness` (`build_helios_witness`). `Relayer` is crates/zk-bridge/src/relayer.rs: `Types` (its
-- records and the requests), `Decode` (what it reads from answers), `Clients` (the calls of the
-- three clients) and `Loop` (`BridgeRelayer`, from one deposit up to `run`). `Text` has what
-- these take of `str`. `Sanctions.Feed` has the reading of the list's text, `Sanctions.Server`
-- is crates/sanctions-oracle/src/server.rs, and `Sanctions.Reach` its states when refreshes
-- overlap. `Encryption` is crates/privacy/src/encryption.rs, and the viewing key of keys.rs. The
-- other files under these hold proofs. `Prelude` has what all share, and `Tests` runs the model
-- on small inputs.
--
-- How code is modelled. A handler is a function from the state to an event or an error and the
-- state after it; what was written before an error stays in that state, and a step of `Runtime`
-- is a call without error, since the framework drops the writes of a failed one. A `StateMap` is
-- a function into options, a `StateValue` an option, a `StateVec` a list. Bytes are numbers, and
-- byte arrays lists of them; a theorem that needs a width says so. Arithmetic on u64 wraps, as
-- in the release build. Loops recurse on the number of rounds that the source writes, or on
-- fuel: 20 for the decimal digits of a u64, since 2^64 < 10^20; 63 doublings for the next power
-- of two and 64 halvings for the trailing zeros of a machine word; one round for each hash of a
-- level of the oracle's tree; one for each byte to be encrypted, of which a round takes up to
-- 32; and one for each byte of the payload of an RLP list, where running out is an outcome of
-- its own; one for each byte of a field that is cut into chunks, and one for each leaf of an SSZ
-- tree; and one for each byte of the text of the SDN list, of which a round takes 19 at least.
-- The relayer's loop, which does not end, is given a number of rounds, and its theorems hold for
-- each number. An index out of bounds, a slice that ends before it starts and a failed assertion
-- are errors. `bail!` is an error without its text. Logging is left out. A text is its bytes in
-- UTF-8, and `trim` takes off the white space of ASCII. The requests of the relayer are kept in
-- a list beside the state of the servers, which may answer each as they like.
--
-- Parameters: SHA-256, Keccak, hex encoding and decoding, the Groth16 verifier and the SP1
-- verifiers, on chain and recursive, the curve X25519 and the decoding of bincode, which are
-- other crates'; and the clock, the sender of a transaction and random secrets. No theorem
-- assumes a hash to be injective: where it matters, the conclusion offers a collision instead.
-- The recursive verifier is assumed to accept only proofs of runs, the two sides of an exchange
-- of keys to agree, and, for the keys of the finalized blocks, hex encoding to be injective.
--
-- The servers of Ethereum, of the rollup and of the beacon chain, the accessors of serde_json,
-- the SDK of SP1 and the file system are parameters in the same way; the SDKs are assumed to
-- accept only proofs of runs, and a text that is read to have less than 2^63 bytes.
--
-- Not modelled: `prove_transfer_with_sanctions` and the native prover of the head, which are
-- chains of calls of the SP1 SDK; authentication and delegation, which forward to the rollup's
-- SDK; the router and the command-line tool of the oracle, the start-up code, the node discovery and the test
-- harness, which are input and output; and the serialization of messages, which serde and borsh
-- derive.
pub mod Prelude
pub mod Merkle
pub mod Privacy
pub mod Bridge
pub mod Runtime
pub mod Circuits
pub mod Helios
pub mod Text
pub mod Beacon
pub mod Relayer
pub mod Provers
pub mod Sanctions
pub mod Mpt
pub mod Combined
pub mod Encryption
pub mod Tests
