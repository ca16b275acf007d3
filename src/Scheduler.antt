-- ===== src/Scheduler.antt =====
-- tasks/scheduler.py: the jobs that run in the background.
pub mod DeadDevices
pub mod Sweep
pub mod DueRollouts
pub mod Started
pub mod Firing
pub mod Settling
