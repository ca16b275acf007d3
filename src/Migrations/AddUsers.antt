-- ===== src/Migrations/AddUsers.antt =====
-- alembic/versions/2026_04_02_ab801f1d0c2f_add_users_table.py
use mdmfleetmanagement.Prelude.{List, [], ◌∷◌}
use mdmfleetmanagement.Migrations.Schema.{
  Table, varchar, boolean, Operation, create_table, drop_table,
}
use mdmfleetmanagement.Migrations.Declared.{required, key, unique_column, time_of_creation}

abbrev users : Table
users = record {
  name = "users";
  columns =
      key (required "id" (varchar 64))
      ∷ unique_column (required "email" (varchar 256))
      ∷ required "hashed_password" (varchar 256)
      ∷ required "role" (varchar 16)
      ∷ required "is_active" boolean
      ∷ time_of_creation "created_at"
      ∷ [];
}

abbrev pub upgrade : List Operation
upgrade = create_table users ∷ []

abbrev pub downgrade : List Operation
downgrade = drop_table "users" ∷ []
