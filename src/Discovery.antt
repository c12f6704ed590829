-- ===== src/Discovery.antt =====
-- Discovery: src/discovery.rs.
pub mod Cadence
pub mod Sources
