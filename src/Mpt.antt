-- ===== src/Mpt.antt =====
-- crates/provers/sp1/guest-bridge/src: mpt.rs, the decoder of RLP and the check of a proof in a
-- Merkle-Patricia trie, and bin/eth_deposit.rs, the program that proves a deposit.
pub mod Rlp
pub mod Encode
pub mod Trie
pub mod RoundTrip
pub mod Items
pub mod Binding
pub mod Deposit
pub mod Lists
pub mod Ends
pub mod Payouts
