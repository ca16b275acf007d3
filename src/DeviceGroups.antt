-- ===== src/DeviceGroups.antt =====
-- api/device_groups.py with schemas/device_group.py: named lists of devices. The caller has passed
-- the guard `require_role("admin", "operator")`.
pub mod Members
pub mod Membership
pub mod Deletion
