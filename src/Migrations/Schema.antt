-- ===== src/Migrations/Schema.antt =====
-- What the operations of alembic do to a schema. An operation that the database refuses gives
-- none. Names of constraints are left out.
use mdmfleetmanagement.Prelude.{
  ℕ, String, Bool, true, false, not, Option, none, some, List, [], ◌∷◌, ◌++◌, ◌==◌, ◌&&◌, ◌||◌,
}
use mdmfleetmanagement.Prelude.Rows.{any_where, update_where, delete_where}

pub data ColumnType : Type 0 where
  integer : ColumnType
  varchar : ℕ → ColumnType
  text : ColumnType
  boolean : ColumnType
  timestamp : ColumnType
  json : ColumnType
  jsonb : ColumnType

-- A column with the constraints on it; `references` is the table of a foreign key.
pub record Column : Type 0 where
  pub name : String
  pub type_of : ColumnType
  pub nullable : Bool
  pub default : Option String
  pub primary : Bool
  pub unique : Bool
  pub references : Option String
  pub cascades : Bool

pub record Table : Type 0 where
  pub name : String
  pub columns : List Column

pub record Index : Type 0 where
  pub name : String
  pub table : String
  pub columns : List String
  pub condition : Option String

pub record Schema : Type 0 where
  pub tables : List Table
  pub indexes : List Index

abbrev pub empty_schema : Schema
empty_schema = record { tables = []; indexes = [] }

abbrev pub Operation : Type 0
Operation = Schema → Option Schema

abbrev pub then_op : Operation → Option Schema → Option Schema
then_op f none = none
then_op f (some s) = f s

-- The operations of an `upgrade` or a `downgrade`, one after the other.
unfoldable pub apply_all : List Operation → Operation
apply_all [] s = some s
apply_all (f ∷ fs) s = then_op (apply_all fs) (f s)

abbrev pub refuse_if : Bool → Schema → Option Schema
refuse_if true s = none
refuse_if false s = some s

unfoldable pub is_table : String → Table → Bool
is_table n t = t.name == n

unfoldable pub is_column : String → Column → Bool
is_column n c = c.name == n

unfoldable pub has_table : String → Schema → Bool
has_table n s = any_where (is_table n) s.tables

unfoldable pub is_table_with : String → String → Table → Bool
is_table_with t c x = is_table t x && any_where (is_column c) x.columns

unfoldable pub has_column : String → String → Schema → Bool
has_column t c s = any_where (is_table_with t c) s.tables

unfoldable pub is_reference_to : String → Option String → Bool
is_reference_to n none = false
is_reference_to n (some m) = m == n

unfoldable pub refers_to : String → Table → Bool
refers_to n t = any_where (λ c. is_reference_to n c.references) t.columns

-- A foreign key to a table that is not there.
unfoldable pub is_dangling : Schema → Option String → Bool
is_dangling s none = false
is_dangling s (some m) = not (has_table m s)

unfoldable pub has_dangling : Schema → Table → Bool
has_dangling s t = any_where (λ c. is_dangling s c.references) t.columns

unfoldable pub is_on : String → Index → Bool
is_on t i = i.table == t

unfoldable pub covers : String → String → Index → Bool
covers t c i = is_on t i && any_where (λ d. d == c) i.columns

unfoldable pub is_index : String → Index → Bool
is_index n i = i.name == n

-- op.create_table
unfoldable pub create_table : Table → Operation
create_table t s =
    refuse_if (has_table t.name s || has_dangling s t) (record s { tables = s.tables ++ t ∷ [] })

-- Another table with a foreign key to this one.
unfoldable pub is_other_referrer : String → Table → Bool
is_other_referrer n x = not (is_table n x) && refers_to n x

-- op.drop_table: its indexes go with it.
unfoldable pub drop_table : String → Operation
drop_table n s =
    refuse_if (not (has_table n s) || any_where (is_other_referrer n) s.tables) (record {
      tables = delete_where (is_table n) s.tables;
      indexes = delete_where (is_on n) s.indexes;
    })

abbrev pub with_column : Column → Table → Table
with_column c t = record t { columns = t.columns ++ c ∷ [] }

-- op.add_column
unfoldable pub add_column : String → Column → Operation
add_column t c s =
    refuse_if (not (has_table t s) || has_column t c.name s || is_dangling s c.references)
      (record s { tables = update_where (is_table t) (with_column c) s.tables })

abbrev pub without_column : String → Table → Table
without_column c t = record t { columns = delete_where (is_column c) t.columns }

-- op.drop_column: the indexes that cover it go with it.
unfoldable pub drop_column : String → String → Operation
drop_column t c s = refuse_if (not (has_column t c s)) (record {
  tables = update_where (is_table t) (without_column c) s.tables;
  indexes = delete_where (covers t c) s.indexes;
})

abbrev pub renamed : String → Column → Column
renamed b c = record c { name = b }

abbrev pub with_renamed : String → String → Table → Table
with_renamed a b t = record t { columns = update_where (is_column a) (renamed b) t.columns }

abbrev pub index_renamed : String → String → Index → Index
index_renamed a b i = record i { columns = update_where (λ d. d == a) (λ d. b) i.columns }

-- op.alter_column with new_column_name
unfoldable pub rename_column : String → String → String → Operation
rename_column t a b s = refuse_if (not (has_column t a s) || has_column t b s) (record {
  tables = update_where (is_table t) (with_renamed a b) s.tables;
  indexes = update_where (is_on t) (index_renamed a b) s.indexes;
})

abbrev pub made_nullable : Column → Column
made_nullable c = record c { nullable = true }

-- op.alter_column with nullable=True
unfoldable pub set_nullable : String → String → Operation
set_nullable t c s = refuse_if (not (has_column t c s)) (record s {
  tables =
      update_where (is_table t)
        (λ x. record x { columns = update_where (is_column c) made_nullable x.columns }) s.tables;
})

-- The columns of an index that its table does not have.
unfoldable pub lacks_column : Schema → Index → Bool
lacks_column s i = any_where (λ c. not (has_column i.table c s)) i.columns

-- op.create_index
unfoldable pub create_index : Index → Operation
create_index i s =
    refuse_if
      (any_where (is_index i.name) s.indexes || not (has_table i.table s) || lacks_column s i)
      (record s { indexes = s.indexes ++ i ∷ [] })

-- op.drop_index
unfoldable pub drop_index : String → Operation
drop_index n s =
    refuse_if (not (any_where (is_index n) s.indexes))
      (record s { indexes = delete_where (is_index n) s.indexes })
