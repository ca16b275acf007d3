-- ===== src/Migrations/RenamePlayedAt.antt =====
-- alembic/versions/2026_04_02_1bfe55aef871_rename_played_at_to_received_at.py
use mdmfleetmanagement.Prelude.{List, [], ◌∷◌}
use mdmfleetmanagement.Migrations.Schema.{Operation, rename_column}

abbrev pub upgrade : List Operation
upgrade = rename_column "broadcast_acks" "played_at" "received_at" ∷ []

abbrev pub downgrade : List Operation
downgrade = rename_column "broadcast_acks" "received_at" "played_at" ∷ []
