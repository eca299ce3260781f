-- ===== src/Tests.antt =====
-- Runs of the model on small inputs, at which the theorems of the development apply.
pub mod Data
pub mod Trees
pub mod Pool
pub mod Chain
pub mod Circuit
pub mod Beacon
pub mod Relayer
pub mod Oracle
pub mod Trie
pub mod Combined
pub mod Encryption
pub mod Heads
pub mod Server
pub mod Provers
