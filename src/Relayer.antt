-- ===== src/Relayer.antt =====
-- crates/zk-bridge/src/relayer.rs: the service that carries deposits and finalized heads from
-- Ethereum to the rollup.
pub mod Types
pub mod Decode
pub mod Clients
pub mod Loop
pub mod Keeps
pub mod Moves
pub mod Once
pub mod Blocks
pub mod Failures
pub mod Heads
