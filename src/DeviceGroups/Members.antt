-- ===== src/DeviceGroups/Members.antt =====
-- api/device_groups.py: list_groups, get_group, create_group, update_group, delete_group.
use mdmfleetmanagement.Prelude.{
  ℕ, suc, String, Bool, true, false, not, Option, none, some, List, [], ◌∷◌, ◌++◌, map, ◌==◌, ◌&&◌,
  ◌||◌, eqb, leb, length,
}
use Prim.Native.String.{count}
use mdmfleetmanagement.Prelude.Rows.{
  find_where, any_where, select_where, update_where, delete_where,
}
use mdmfleetmanagement.Prelude.Sets.{to_set}
use mdmfleetmanagement.Models.{Database, DeviceGroup, DeviceGroupMember, Detail, str, strs, int}
use mdmfleetmanagement.Session.{
  Action, http, integrity_error, pure, raise_if, or_raise, query, execute, commit, ◌>>=◌, ◌>>◌,
}
use mdmfleetmanagement.Audit.{log}
use mdmfleetmanagement.Mqtt.Registration.{kept_or}
use mdmfleetmanagement.Mqtt.Heartbeat.{has_id}

pub record DeviceGroupCreate : Type 0 where
  pub name : String
  pub description : Option String
  pub device_ids : List String

pub record DeviceGroupUpdate : Type 0 where
  pub name : Option String
  pub description : Option String
  pub device_ids : Option (List String)

pub record DeviceGroupResponse : Type 0 where
  pub id : ℕ
  pub name : String
  pub description : Option String
  pub device_ids : List String
  pub member_count : ℕ

unfoldable pub in_group : ℕ → DeviceGroupMember → Bool
in_group id m = eqb m.group_id id

-- The ids of a group's members.
unfoldable pub members : ℕ → Database → List String
members id d = map (λ m. m.device_id) (select_where (in_group id) d.device_group_members)

-- _to_response
unfoldable pub to_response : Database → DeviceGroup → DeviceGroupResponse
to_response d g = record {
  id = g.id;
  name = g.name;
  description = g.description;
  device_ids = members g.id d;
  member_count = length (members g.id d);
}

abbrev pub member_rows : ℕ → List String → List DeviceGroupMember
member_rows id ids = map (λ i. record { group_id = id; device_id = i }) ids

-- The foreign key on devices.device_id.
unfoldable pub all_devices : List String → Database → Bool
all_devices [] d = true
all_devices (i ∷ ids) d = any_where (has_id i) d.devices && all_devices ids d

-- device_group_members.insert(), which is left out for an empty list
unfoldable pub insert_members : ℕ → List String → Action (Unit {0})
insert_members id ids = do
  known ← query (all_devices (to_set ids))
  raise_if (not known) integrity_error
  execute (λ d. record d {
    device_group_members = d.device_group_members ++ member_rows id (to_set ids);
  })

unfoldable pub has_name : String → DeviceGroup → Bool
has_name n g = g.name == n

unfoldable pub has_group_id : ℕ → DeviceGroup → Bool
has_group_id id g = eqb g.id id

abbrev pub add_group : DeviceGroupCreate → Option String → Database → Database
add_group p user_id d = record d {
  device_groups =
      d.device_groups
      ++ record { id = d.next_id; name = p.name; description = p.description; created_by = user_id }
        ∷ [];
  next_id = suc d.next_id;
}

unfoldable pub find_group : ℕ → Action DeviceGroup
find_group id = do or_raise (← query (λ d. find_where (has_group_id id) d.device_groups)) (http 404)

-- GET /{group_id}
unfoldable pub get_group : ℕ → Action DeviceGroupResponse
get_group id = do g ← find_group id; query (λ d. to_response d g)

-- POST /, with Field(min_length=1, max_length=128) on the name
unfoldable pub create_group : DeviceGroupCreate → Option String → Action DeviceGroupResponse
create_group p user_id = do
  raise_if (p.name == "" || not (leb (count p.name) 128)) (http 422)
  raise_if (← query (λ d. any_where (has_name p.name) d.device_groups)) (http 409)
  id ← query (λ d. d.next_id)
  execute (add_group p user_id)
  insert_members id p.device_ids
  commit
  log user_id "create" "device_group"
      (("id", int id) ∷ ("name", str p.name) ∷ ("member_count", int (length p.device_ids)) ∷ [])
  get_group id

abbrev pub given {ℓ} : {A : Type ℓ} → Option A → A → A
given none old = old
given (some new) old = new

-- The assignments of `update_group` to the group's row.
unfoldable pub edit : DeviceGroupUpdate → DeviceGroup → DeviceGroup
edit p g = record g {
  name = given p.name g.name;
  description = kept_or p.description g.description;
}

-- The changes of the audit entry, listed beside the id; a field given as null counts as not given.
unfoldable pub text_change : String → Option String → List (String × Detail)
text_change k none = []
text_change k (some v) = (k, str v) ∷ []

unfoldable pub members_change : Option (List String) → List (String × Detail)
members_change none = []
members_change (some ids) = ("device_ids", strs ids) ∷ []

-- The unique constraint on device_groups.name: another group has this name.
unfoldable pub name_taken : ℕ → Option String → Database → Bool
name_taken id none d = false
name_taken id (some n) d = any_where (λ g. has_name n g && not (has_group_id id g)) d.device_groups

-- The supplied list becomes the new membership.
unfoldable pub replace_members : ℕ → Option (List String) → Action (Unit {0})
replace_members id none = pure tt
replace_members id (some ids) = do
  execute
      (λ d. record d { device_group_members = delete_where (in_group id) d.device_group_members })
  insert_members id ids

-- PATCH /{group_id}
unfoldable pub update_group : ℕ → DeviceGroupUpdate → Option String → Action DeviceGroupResponse
update_group id p user_id = do
  find_group id
  raise_if (← query (name_taken id p.name)) integrity_error
  execute
      (λ d. record d { device_groups = update_where (has_group_id id) (edit p) d.device_groups })
  replace_members id p.device_ids
  commit
  log user_id "update" "device_group" (
      ("id", int id)
      ∷ (text_change "name" p.name
          ++ (text_change "description" p.description ++ members_change p.device_ids)))
  get_group id

-- DELETE /{group_id}; the rows of the membership go with the group.
unfoldable pub delete_group : ℕ → Option String → Action (Unit {0})
delete_group id user_id = do
  g ← find_group id
  execute (λ d. record d {
    device_groups = delete_where (has_group_id id) d.device_groups;
    device_group_members = delete_where (in_group id) d.device_group_members;
  })
  commit
  log user_id "delete" "device_group" (("id", int id) ∷ ("name", str g.name) ∷ [])
