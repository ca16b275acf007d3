-- ===== src/Repositories/Device.antt =====
-- repositories/device.py, DeviceRepository: listing devices by filters, a search and a sort key.
-- ILIKE with the pattern %s% and the order of a column are the database's: arguments.
use mdmfleetmanagement.Prelude.{
  ℕ, String, Bool, true, false, not, Option, none, some, List, [], ◌∷◌, if◌then◌else◌, ◌==◌, ◌&&◌,
  ◌||◌, eq_sql, take, drop,
}
use Prim.Native.Char.{code}
use mdmfleetmanagement.Prelude.{eqb}
use mdmfleetmanagement.Prelude.Rows.{select_where, any_where, count_where}
use mdmfleetmanagement.Prelude.Sets.{to_set}
use mdmfleetmanagement.Prelude.Text.{strip, has_text, text_or}
use mdmfleetmanagement.Models.{Device}

pub record Listing : Type 0 where
  pub status : Option String
  pub home_id : Option String
  pub firmware_version : Option String
  pub role : Option String
  pub search : Option String
  pub sort : String
  pub skip : ℕ
  pub limit : ℕ

-- _SORTABLE
abbrev pub sortable : List String
sortable =
    "device_id" ∷ "custom_id" ∷ "display_name" ∷ "home_id" ∷ "firmware_version" ∷ "status"
    ∷ "last_seen" ∷ "created_at" ∷ "updated_at" ∷ []

-- sort.startswith("-")
unfoldable pub is_descending : String → Bool
is_descending String.[] = false
is_descending (String.◌∷◌ c s) = eqb (code c) b'-'

-- sort.lstrip("-")
unfoldable pub lstrip_dash : String → String
lstrip_dash String.[] = ""
lstrip_dash (String.◌∷◌ c s) =
    let rest = lstrip_dash s in if eqb (code c) b'-' then rest else String.◌∷◌ c s

pub record SortKey : Type 0 where
  pub column : String
  pub reverse : Bool

-- A column that is not on the list falls back to the latest seen.
unfoldable pub sort_key : String → SortKey
sort_key s =
    if any_where (λ c. lstrip_dash s == c) sortable
    then record { column = lstrip_dash s; reverse = is_descending s }
    else record { column = "last_seen"; reverse = true }

-- if value is not None and value != "": column == value
unfoldable pub filter_by : Option String → Option String → Bool
filter_by none column = true
filter_by (some v) column = if v == "" then true else eq_sql column v

abbrev pub like_column : (String → String → Bool) → String → Option String → Bool
like_column ilike s none = false
like_column ilike s (some v) = ilike v s

-- if search: one of the four columns is like %search%
unfoldable pub matches : (String → String → Bool) → Option String → Device → Bool
matches ilike search x =
    if has_text search
    then (let s = strip (text_or search "") in
        like_column ilike s (some x.device_id)
        || like_column ilike s x.custom_id
        || like_column ilike s x.display_name
        || like_column ilike s x.home_id)
    else true

unfoldable pub is_listed : (String → String → Bool) → Listing → Device → Bool
is_listed ilike q x =
    filter_by q.status (some x.status)
    && filter_by q.home_id x.home_id
    && filter_by q.firmware_version x.firmware_version
    && filter_by q.role (some x.role)
    && matches ilike q.search x

-- get_filtered_paginated: the page, and the number of all that match.
unfoldable pub get_filtered_paginated :
    (String → String → Bool)
    → (SortKey → List Device → List Device)
    → Listing
    → List Device
    → List Device × ℕ
get_filtered_paginated ilike order_by q rows =
    let found = select_where (is_listed ilike q) rows in
    (
      take q.limit (drop q.skip (order_by (sort_key q.sort) found)),
      count_where (is_listed ilike q) rows,
    )

abbrev pub or_skip : Option String → List String → List String
or_skip none vs = vs
or_skip (some v) vs = v ∷ vs

-- col.is_not(None)
unfoldable pub values_of : (Device → Option String) → List Device → List String
values_of column [] = []
values_of column (x ∷ xs) = or_skip (column x) (values_of column xs)

-- SELECT DISTINCT … ORDER BY over a column, then `if v`.
unfoldable pub distinct_of :
    (List String → List String) → (Device → Option String) → List Device → List String
distinct_of order_by column rows =
    select_where (λ v. not (v == "")) (order_by (to_set (values_of column rows)))

-- distinct_values; a column that is not on the list has no values.
unfoldable pub distinct_values : (List String → List String) → String → List Device → List String
distinct_values order_by column rows =
    if column == "home_id"
    then distinct_of order_by (λ x. x.home_id) rows
    else if column == "firmware_version"
    then distinct_of order_by (λ x. x.firmware_version) rows
    else if column == "status"
    then distinct_of order_by (λ x. some x.status) rows
    else if column == "role"
    then distinct_of order_by (λ x. some x.role) rows
    else []
