-- ===== src/Proto.antt =====
-- The types that client and agent share (proto/src).
pub mod Net
pub mod Errors
pub mod Entries
pub mod Ports
pub mod Forwards
pub mod Rpc
