-- ===== src/Migrations/InitialSchema.antt =====
-- alembic/versions/2026_03_31_099234203802_initial_schema.py
use mdmfleetmanagement.Prelude.{List, [], ◌∷◌}
use mdmfleetmanagement.Migrations.Schema.{
  Table, integer, varchar, text, timestamp, jsonb, Operation, create_table, drop_table,
}
use mdmfleetmanagement.Migrations.Declared.{
  required, optional, key, unique_column, foreign, time_of_creation,
}

abbrev pub audit_log : Table
audit_log = record {
  name = "audit_log";
  columns =
      key (required "id" integer)
      ∷ optional "user_id" (varchar 64)
      ∷ required "action" (varchar 32)
      ∷ required "resource" (varchar 32)
      ∷ optional "details" jsonb
      ∷ time_of_creation "created_at"
      ∷ [];
}

abbrev pub communities : Table
communities = record {
  name = "communities";
  columns =
      key (required "community_id" (varchar 32))
      ∷ required "name" (varchar 128)
      ∷ optional "description" text
      ∷ time_of_creation "created_at"
      ∷ [];
}

abbrev pub firmware_versions : Table
firmware_versions = record {
  name = "firmware_versions";
  columns =
      key (required "id" integer)
      ∷ unique_column (required "version" (varchar 32))
      ∷ required "binary_path" (varchar 256)
      ∷ required "checksum" (varchar 64)
      ∷ optional "release_notes" text
      ∷ time_of_creation "created_at"
      ∷ [];
}

abbrev pub homes : Table
homes = record {
  name = "homes";
  columns =
      key (required "home_id" (varchar 64))
      ∷ required "patient_name" (varchar 128)
      ∷ optional "address" (varchar 256)
      ∷ time_of_creation "created_at"
      ∷ [];
}

abbrev pub broadcasts : Table
broadcasts = record {
  name = "broadcasts";
  columns =
      key (required "id" integer)
      ∷ foreign "communities" (required "community_id" (varchar 32))
      ∷ required "message" text
      ∷ required "type" (varchar 16)
      ∷ required "priority" (varchar 16)
      ∷ optional "scheduled_at" timestamp
      ∷ optional "sent_at" timestamp
      ∷ optional "sent_by" (varchar 64)
      ∷ time_of_creation "created_at"
      ∷ [];
}

abbrev pub devices : Table
devices = record {
  name = "devices";
  columns =
      key (required "device_id" (varchar 64))
      ∷ unique_column (required "mac" (varchar 17))
      ∷ required "firmware_version" (varchar 32)
      ∷ required "role" (varchar 32)
      ∷ required "status" (varchar 16)
      ∷ optional "last_seen" timestamp
      ∷ foreign "homes" (optional "home_id" (varchar 64))
      ∷ optional "rssi" integer
      ∷ optional "heap" integer
      ∷ optional "uptime" integer
      ∷ time_of_creation "created_at"
      ∷ time_of_creation "updated_at"
      ∷ [];
}

abbrev pub home_community : Table
home_community = record {
  name = "home_community";
  columns =
      key (foreign "homes" (required "home_id" (varchar 64)))
      ∷ key (foreign "communities" (required "community_id" (varchar 32)))
      ∷ [];
}

abbrev pub broadcast_acks : Table
broadcast_acks = record {
  name = "broadcast_acks";
  columns =
      key (required "id" integer)
      ∷ foreign "broadcasts" (required "broadcast_id" integer)
      ∷ foreign "homes" (required "home_id" (varchar 64))
      ∷ required "status" (varchar 16)
      ∷ optional "played_at" timestamp
      ∷ [];
}

abbrev pub ota_events : Table
ota_events = record {
  name = "ota_events";
  columns =
      key (required "id" integer)
      ∷ foreign "devices" (required "device_id" (varchar 64))
      ∷ required "from_version" (varchar 32)
      ∷ required "to_version" (varchar 32)
      ∷ required "status" (varchar 16)
      ∷ time_of_creation "started_at"
      ∷ optional "completed_at" timestamp
      ∷ [];
}

abbrev pub upgrade : List Operation
upgrade =
    create_table audit_log
    ∷ create_table communities
    ∷ create_table firmware_versions
    ∷ create_table homes
    ∷ create_table broadcasts
    ∷ create_table devices
    ∷ create_table home_community
    ∷ create_table broadcast_acks
    ∷ create_table ota_events
    ∷ []

abbrev pub downgrade : List Operation
downgrade =
    drop_table "ota_events"
    ∷ drop_table "broadcast_acks"
    ∷ drop_table "home_community"
    ∷ drop_table "devices"
    ∷ drop_table "broadcasts"
    ∷ drop_table "homes"
    ∷ drop_table "firmware_versions"
    ∷ drop_table "communities"
    ∷ drop_table "audit_log"
    ∷ []
