-- ===== src/Migrations/CustomId.antt =====
-- alembic/versions/2026_04_18_b8e4c1a6f2d3_device_custom_id.py
use mdmfleetmanagement.Prelude.{List, [], ◌∷◌}
use mdmfleetmanagement.Migrations.Schema.{varchar, Operation, add_column, drop_column}
use mdmfleetmanagement.Migrations.Declared.{optional}

abbrev pub upgrade : List Operation
upgrade = add_column "devices" (optional "custom_id" (varchar 64)) ∷ []

abbrev pub downgrade : List Operation
downgrade = drop_column "devices" "custom_id" ∷ []
