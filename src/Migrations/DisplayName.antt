-- ===== src/Migrations/DisplayName.antt =====
-- alembic/versions/2026_04_17_a7b3c9e2d4f1_device_display_name.py
use mdmfleetmanagement.Prelude.{List, [], ◌∷◌}
use mdmfleetmanagement.Migrations.Schema.{varchar, Operation, add_column, drop_column}
use mdmfleetmanagement.Migrations.Declared.{optional}

abbrev pub upgrade : List Operation
upgrade = add_column "devices" (optional "display_name" (varchar 128)) ∷ []

abbrev pub downgrade : List Operation
downgrade = drop_column "devices" "display_name" ∷ []
