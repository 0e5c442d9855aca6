-- ===== src/Machine.antt =====
-- The state machine: ibctl/src/state_machine/types.rs, mod.rs and revocation.rs.
pub mod Command
pub mod State
pub mod Revocation
pub mod Events
pub mod Handlers
pub mod Json
pub mod Lifecycle
pub mod Park
pub mod Probe
pub mod Queries
mod Tests
