-- ===== src/Beacon.antt =====
-- crates/zk-bridge/src/beacon_api.rs: the client of the beacon API, and the witness that it builds
-- for the light client's program.
pub mod Types
pub mod Parse
pub mod Ssz
pub mod Witness
pub mod Levels
pub mod Payload
pub mod Built
