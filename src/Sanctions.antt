-- ===== src/Sanctions.antt =====
-- crates/sanctions-oracle/src/lib.rs and server.rs, and the program that proves an address to be off
-- its list.
pub mod Order
pub mod Sort
pub mod Power
pub mod Oracle
pub mod Levels
pub mod Build
pub mod Partition
pub mod Witness
pub mod Circuit
pub mod Paths
pub mod Complete
pub mod Sound
pub mod Feed
pub mod Extract
pub mod Found
pub mod Listed
pub mod Server
pub mod Reach
pub mod Answers
