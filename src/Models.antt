-- ===== src/Models.antt =====
-- The tables of fleet_server/models/*.py, one record for the rows of each, and the database.
-- A nullable column is an Option. A point in time is a number of microseconds. Timestamps that
-- the server only shows (created_at of most tables, updated_at) are left out, and so are the
-- ORM's relationship attributes, which are queries over the foreign keys.
mod Fleet
mod Rollouts
mod Accounts
mod Messages
mod Tables
pub use Fleet.*
pub use Rollouts.*
pub use Accounts.*
pub use Messages.*
pub use Tables.*
