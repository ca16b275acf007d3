-- ===== src/Api.antt =====
-- The endpoints of fleet_server/api that answer over the services and repositories, and which
-- caller may reach which endpoint.
pub mod Patch
pub mod Devices
pub mod Homes
pub mod Communities
pub mod Rollouts
pub mod Provisioning
pub mod Listings
pub mod Receipts
pub mod Requests
pub mod Handle
pub mod Reads
pub mod Admission
pub mod Refusals
pub mod Writes
