-- ===== src/Repositories.antt =====
-- fleet_server/repositories: access to the rows of one table.
pub mod Base
pub mod Device
pub mod Home
pub mod Crud
pub mod Pages
pub mod Assignment
pub mod Values
