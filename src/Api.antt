-- ===== src/Api.antt =====
-- The guards in front of the handlers (agent/src/api, agent/src/auth).
pub mod AccessKey
pub mod Limit
pub mod Conns
pub mod Pairing
pub mod Access
pub mod Dispatch
