-- ===== src/Handlers.antt =====
-- The request handlers of the agent (agent/src/api).
pub mod App
pub mod Allowlist
pub mod Exposure
pub mod PublicPorts
pub mod Forwards
pub mod Dnat
pub mod Unified
pub mod Closure
