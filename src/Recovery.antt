-- ===== src/Recovery.antt =====
-- The three-phase reconnection recovery of ibctl/src/state_machine/recovery.rs.
pub mod Decision
pub mod Disk
pub mod Persist
pub mod Coordinator
pub mod Tests
