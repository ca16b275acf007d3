-- ===== src/Migrations.antt =====
-- alembic/versions: the revisions of the database schema, one after the other.
pub mod Schema
pub mod Declared
pub mod InitialSchema
pub mod RenamePlayedAt
pub mod AddUsers
pub mod ProvisionJobs
pub mod DisplayName
pub mod CustomId
pub mod Groups
pub mod Revisions
pub mod Undo
pub mod Columns
pub mod Downgrade
