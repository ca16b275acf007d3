-- ===== src/Migrations/Revisions.antt =====
-- The revisions in alembic/versions, by what they are about, with their upgrades and downgrades.
use mdmfleetmanagement.Prelude.{List}
use mdmfleetmanagement.Migrations.Schema.{Operation, apply_all}
use mdmfleetmanagement.Migrations.InitialSchema
use mdmfleetmanagement.Migrations.RenamePlayedAt
use mdmfleetmanagement.Migrations.AddUsers
use mdmfleetmanagement.Migrations.ProvisionJobs
use mdmfleetmanagement.Migrations.DisplayName
use mdmfleetmanagement.Migrations.CustomId
use mdmfleetmanagement.Migrations.Groups

-- In the order in which they are applied.
pub data Revision : Type 0 where
  initial_schema rename_played_at add_users provisioning display_name custom_id groups : Revision

abbrev pub upgrade_steps : Revision → List Operation
upgrade_steps initial_schema = InitialSchema.upgrade
upgrade_steps rename_played_at = RenamePlayedAt.upgrade
upgrade_steps add_users = AddUsers.upgrade
upgrade_steps provisioning = ProvisionJobs.upgrade
upgrade_steps display_name = DisplayName.upgrade
upgrade_steps custom_id = CustomId.upgrade
upgrade_steps groups = Groups.upgrade

abbrev pub downgrade_steps : Revision → List Operation
downgrade_steps initial_schema = InitialSchema.downgrade
downgrade_steps rename_played_at = RenamePlayedAt.downgrade
downgrade_steps add_users = AddUsers.downgrade
downgrade_steps provisioning = ProvisionJobs.downgrade
downgrade_steps display_name = DisplayName.downgrade
downgrade_steps custom_id = CustomId.downgrade
downgrade_steps groups = Groups.downgrade

-- alembic upgrade and downgrade by one revision
unfoldable pub upgrade : Revision → Operation
upgrade r = apply_all (upgrade_steps r)

unfoldable pub downgrade : Revision → Operation
downgrade r = apply_all (downgrade_steps r)
