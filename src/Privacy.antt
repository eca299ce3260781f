-- ===== src/Privacy.antt =====
-- crates/privacy: the shielded pool. `Types` has the notes, `Zk` the proof checks, `State` the
-- state and the insertion into the tree, `Handlers` the four calls.
pub mod Types
pub mod Zk
pub mod State
pub mod Tree
pub mod Roots
pub mod Success
pub mod Keeps
pub mod Pool
pub mod Spend
pub mod Notes
pub mod MockProofs
pub mod Effects
pub mod Accepted
pub mod Oracle
pub mod Duplicates
pub mod Handlers
