-- ===== src/Dnat.antt =====
-- The adapter to the tool dnat (agent/src/dnat).
pub mod Conf
pub mod Adapter
