-- ===== src/Migrations/ProvisionJobs.antt =====
-- alembic/versions/2026_04_06_c1d2e3f4a5b6_provisioning.py
use mdmfleetmanagement.Prelude.{none, List, [], ◌∷◌}
use mdmfleetmanagement.Migrations.Schema.{
  Table, Index, varchar, text, Operation, create_table, drop_table, add_column, drop_column,
  set_nullable, create_index, drop_index,
}
use mdmfleetmanagement.Migrations.Declared.{required, optional, defaulted, key, time_of_creation}

abbrev provision_jobs : Table
provision_jobs = record {
  name = "provision_jobs";
  columns =
      key (required "id" (varchar 36))
      ∷ required "device_id" (varchar 64)
      ∷ required "device_type" (varchar 32)
      ∷ defaulted "status" (varchar 16) "pending"
      ∷ optional "firmware_path" (varchar 512)
      ∷ optional "error" text
      ∷ time_of_creation "created_at"
      ∷ time_of_creation "updated_at"
      ∷ [];
}

abbrev ix_provision_jobs_device_id : Index
ix_provision_jobs_device_id = record {
  name = "ix_provision_jobs_device_id";
  table = "provision_jobs";
  columns = "device_id" ∷ [];
  condition = none;
}

abbrev pub upgrade : List Operation
upgrade =
    add_column "devices" (defaulted "device_type" (varchar 32) "room_sensor")
    ∷ add_column "devices" (optional "provision_token" (varchar 128))
    ∷ add_column "devices" (optional "target_firmware_version" (varchar 32))
    ∷ set_nullable "devices" "mac"
    ∷ set_nullable "devices" "firmware_version"
    ∷ create_table provision_jobs
    ∷ create_index ix_provision_jobs_device_id
    ∷ []

abbrev pub downgrade : List Operation
downgrade =
    drop_index "ix_provision_jobs_device_id"
    ∷ drop_table "provision_jobs"
    ∷ drop_column "devices" "target_firmware_version"
    ∷ drop_column "devices" "provision_token"
    ∷ drop_column "devices" "device_type"
    ∷ []
