-- ===== src/Tests.antt =====
-- The theorems at concrete inputs.
pub mod Data
mod Settings
mod Kernel
mod Access
mod Rules
mod Texts
mod Allowlist
mod Dnat
mod Noise
mod Host
mod Agent
mod Commands
mod Files
