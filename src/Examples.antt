-- ===== src/Examples.antt =====
-- Runs of the definitions and uses of the theorems on one small fleet.
pub mod Fleet
pub mod Rollouts
pub mod Sessions
pub mod Records
pub mod Requests
pub mod Histories
pub mod Tables
pub mod Repository
