-- ===== src/Migrations/Groups.antt =====
-- alembic/versions/2026_04_20_d9f7e3b1c4a2_device_groups_scheduled_rollouts.py
use mdmfleetmanagement.Prelude.{some, List, [], ◌∷◌}
use mdmfleetmanagement.Migrations.Schema.{
  Table, Index, integer, varchar, text, timestamp, json, Operation, create_table, drop_table,
  create_index, drop_index,
}
use mdmfleetmanagement.Migrations.Declared.{
  required, optional, defaulted, key, unique_column, foreign, cascading, time_of_creation,
}

abbrev device_groups : Table
device_groups = record {
  name = "device_groups";
  columns =
      key (required "id" integer)
      ∷ unique_column (required "name" (varchar 128))
      ∷ optional "description" text
      ∷ foreign "users" (optional "created_by" (varchar 64))
      ∷ time_of_creation "created_at"
      ∷ time_of_creation "updated_at"
      ∷ [];
}

abbrev device_group_members : Table
device_group_members = record {
  name = "device_group_members";
  columns =
      key (cascading (foreign "device_groups" (required "group_id" integer)))
      ∷ key (cascading (foreign "devices" (required "device_id" (varchar 64))))
      ∷ [];
}

abbrev scheduled_rollouts : Table
scheduled_rollouts = record {
  name = "scheduled_rollouts";
  columns =
      key (required "id" integer)
      ∷ foreign "firmware_versions" (required "target_version" (varchar 32))
      ∷ defaulted "strategy" (varchar 16) "full"
      ∷ required "target_devices" json
      ∷ optional "canary_count" integer
      ∷ required "fire_at" timestamp
      ∷ defaulted "status" (varchar 16) "pending"
      ∷ foreign "users" (optional "created_by" (varchar 64))
      ∷ time_of_creation "created_at"
      ∷ optional "fired_at" timestamp
      ∷ optional "error" text
      ∷ [];
}

abbrev ix_scheduled_rollouts_pending : Index
ix_scheduled_rollouts_pending = record {
  name = "ix_scheduled_rollouts_pending_fire_at";
  table = "scheduled_rollouts";
  columns = "fire_at" ∷ [];
  condition = some "status = 'pending'";
}

abbrev pub upgrade : List Operation
upgrade =
    create_table device_groups
    ∷ create_table device_group_members
    ∷ create_table scheduled_rollouts
    ∷ create_index ix_scheduled_rollouts_pending
    ∷ []

abbrev pub downgrade : List Operation
downgrade =
    drop_index "ix_scheduled_rollouts_pending_fire_at"
    ∷ drop_table "scheduled_rollouts"
    ∷ drop_table "device_group_members"
    ∷ drop_table "device_groups"
    ∷ []
