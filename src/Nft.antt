-- ===== src/Nft.antt =====
-- Loading rules into the kernel (agent/src/nft).
pub mod Backend
pub mod Apply
pub mod Ports
pub mod Nat
pub mod Ruleset
pub mod Listing
pub mod Json
pub mod Cli
