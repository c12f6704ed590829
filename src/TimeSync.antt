-- ===== src/TimeSync.antt =====
-- Time synchronization: src/timesync.rs.
pub mod Calendar
pub mod Clock
pub mod Messages
pub mod Tracker
pub mod Network
