-- ===== src/Bridge.antt =====
-- crates/zk-bridge: deposits claimed from Ethereum, withdrawals to it, and the light client's head.
pub mod Types
pub mod Keys
pub mod Verifier
pub mod Handlers
pub mod Success
