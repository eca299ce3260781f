-- ===== src/Helios.antt =====
-- crates/provers/sp1/guest-helios: the program that moves the light client's head by one step.
pub mod Ssz
pub mod Step
pub mod Branch
pub mod Binding
