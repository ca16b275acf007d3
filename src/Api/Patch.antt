-- ===== src/Api/Patch.antt =====
-- The fields of a PATCH request: `model_dump(exclude_unset=True)` keeps those that the request
-- names, null included.
use mdmfleetmanagement.Prelude.{String, Bool, true, false, Option, none, some, List, [], ◌∷◌}

pub data Patch : Type 0 where
  absent : Patch
  nulled : Patch
  present : String → Patch

-- setattr on a column that may be NULL.
unfoldable pub patch_column : Patch → Option String → Option String
patch_column absent old = old
patch_column nulled old = none
patch_column (present v) old = some v

-- setattr on a column that may not; a null is refused beforehand.
unfoldable pub patch_text : Patch → String → String
patch_text absent old = old
patch_text nulled old = old
patch_text (present v) old = v

unfoldable pub is_nulled : Patch → Bool
is_nulled absent = false
is_nulled nulled = true
is_nulled (present v) = false

-- The item of the dict for a field.
unfoldable pub item : String → Patch → List (String × Option String)
item k absent = []
item k nulled = (k, none) ∷ []
item k (present v) = (k, some v) ∷ []

-- The value that a request names.
unfoldable pub named : Patch → Option String
named (present v) = some v
named _ = none
