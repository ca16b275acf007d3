-- ===== src/Ota.antt =====
-- fleet_server/services/ota.py: rollouts of a firmware version.
pub mod Select
pub mod Latest
pub mod Succession
pub mod Rollout
pub mod Preview
pub mod Selection
pub mod Starting
pub mod Outcome
pub mod Aborting
pub mod DryRun
pub mod Campaigns
pub mod History
