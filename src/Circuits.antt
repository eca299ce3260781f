-- ===== src/Circuits.antt =====
-- crates/provers/sp1/guest-privacy: the programs whose runs the proofs of the pool attest.
pub mod Types
pub mod Transfer
pub mod Unshield
pub mod Balance
pub mod Inclusion
pub mod Compliance
pub mod Keys
