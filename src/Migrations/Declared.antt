-- ===== src/Migrations/Declared.antt =====
-- How the revisions declare columns.
use mdmfleetmanagement.Prelude.{String, true, false, none, some}
use mdmfleetmanagement.Migrations.Schema.{Column, ColumnType, timestamp}

abbrev pub required : String → ColumnType → Column
required n t = record {
  name = n;
  type_of = t;
  nullable = false;
  default = none;
  primary = false;
  unique = false;
  references = none;
  cascades = false;
}

abbrev pub optional : String → ColumnType → Column
optional n t = record (required n t) { nullable = true }

abbrev pub defaulted : String → ColumnType → String → Column
defaulted n t v = record (required n t) { default = some v }

abbrev pub key : Column → Column
key c = record c { primary = true }

abbrev pub unique_column : Column → Column
unique_column c = record c { unique = true }

abbrev pub foreign : String → Column → Column
foreign t c = record c { references = some t }

abbrev pub cascading : Column → Column
cascading c = record c { cascades = true }

abbrev pub time_of_creation : String → Column
time_of_creation n = defaulted n timestamp "now()"
