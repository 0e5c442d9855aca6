-- ===== src/Recovery/Tests.antt =====
-- Runs of the recovery coordinator on a concrete platform, and the theorems at concrete inputs.
pub mod Sample
mod Runs
mod GiveUp
