-- ===== src/Mqtt/Json.antt =====
-- The payloads of mqtt/handlers.py. `json.loads` and the database driver are third parties: they
-- are the fields of `Driver`. Of a value inside an object the handlers look at texts, numbers and
-- truth only, so a nested list or object is kept as the fact that it has a member.
use mdmfleetmanagement.Prelude.{
  ℕ, String, Bool, true, false, not, Option, none, some, List, [], ◌∷◌, if◌then◌else◌, ◌==◌, eqb,
}
use mdmfleetmanagement.Prelude.Int.{ℤ, pos, negsuc, ltb_ℤ}
use mdmfleetmanagement.Prelude.Text.{strip}
use mdmfleetmanagement.Session.{
  Action, pure, raise, or_raise, attribute_error, type_error, data_error,
}

pub data Scalar : Type 0 where
  null : Scalar
  boolean : Bool → Scalar
  integer : ℤ → Scalar
  -- a float, by its floor and whether it is another number than 0
  decimal : ℤ → Bool → Scalar
  text : String → Scalar
  -- a list or an object, by whether it has a member
  nested : Bool → Scalar

pub data Json : Type 0 where
  object : List (String × Scalar) → Json
  other : Json

-- `loads` is none where `json.loads` raises JSONDecodeError; a `bind` function is none where the
-- driver refuses a value for a column of that type, and some none where it stores NULL.
pub record Driver : Type 0 where
  pub loads : String → Option Json
  pub bind_integer : Scalar → Option (Option ℤ)
  pub bind_text : Scalar → Option (Option String)

-- data.get(k, default); the last of several equal keys counts.
unfoldable pub find_key : String → List (String × Scalar) → Scalar → Scalar
find_key k [] default = default
find_key k ((j, v) ∷ fields) default = find_key k fields (if j == k then v else default)

-- The keys of a payload; one that is not an object has no method `get`.
unfoldable pub fields_of : Json → Action (List (String × Scalar))
fields_of (object fields) = pure fields
fields_of other = raise attribute_error

-- `if v`
unfoldable pub truthy : Scalar → Bool
truthy null = false
truthy (boolean b) = b
truthy (integer (pos n)) = not (eqb n 0)
truthy (integer (negsuc n)) = true
truthy (decimal i nonzero) = nonzero
truthy (text s) = not (s == "")
truthy (nested nonempty) = nonempty

-- s or None, for a text
unfoldable pub or_none : String → Option String
or_none s = if s == "" then none else some s

unfoldable pub strip_scalar : Scalar → Action (Option String)
strip_scalar (text s) = pure (or_none (strip s))
strip_scalar _ = raise attribute_error

-- (v or "").strip() or None
unfoldable pub stripped : Scalar → Action (Option String)
stripped v = if truthy v then strip_scalar v else pure none

-- v < n
unfoldable pub less_than : Scalar → ℕ → Action Bool
less_than (boolean b) n = pure (ltb_ℤ (pos (if b then 1 else 0)) n)
less_than (integer i) n = pure (ltb_ℤ i n)
less_than (decimal i nonzero) n = pure (ltb_ℤ i n)
less_than _ n = raise type_error

-- v is not None and v < n
unfoldable pub is_below : Scalar → ℕ → Action Bool
is_below null n = pure false
is_below v n = less_than v n

-- A value on its way into a column.
unfoldable pub to_column : {A : Type 0} → Option A → Action A
to_column bound = or_raise bound data_error

-- v in ("a", "b", …), v == "a"
unfoldable pub is_text : Scalar → String → Bool
is_text (text s) t = s == t
is_text _ t = false
