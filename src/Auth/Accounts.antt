-- ===== src/Auth/Accounts.antt =====
-- api/auth.py, the endpoints: login, create_user, change_my_password, update_user,
-- reset_user_password. Each takes the user that its dependency returned.
use mdmfleetmanagement.Prelude.{
  ℕ, String, Bool, true, false, not, Option, none, some, List, [], ◌∷◌, ◌++◌, if◌then◌else◌, ◌==◌,
  ◌&&◌, ◌||◌, ltb, leb, is_none,
}
use Prim.Native.String.{count}
use mdmfleetmanagement.Prelude.Rows.{find_where, select_where, update_where, any_where, count_where}
use mdmfleetmanagement.Prelude.Text.{strip}
use mdmfleetmanagement.Models.{Database, User, Detail, str, flag, changed_text, changed_flag}
use mdmfleetmanagement.Session.{
  Action, http, multiple_results, integrity_error, pure, raise, raise_if, or_raise, query, execute,
  commit, ◌>>=◌, ◌>>◌,
}
use mdmfleetmanagement.Audit.{log}
use mdmfleetmanagement.Auth.Tokens.{Crypto, create_access_token}
use mdmfleetmanagement.Auth.Guards.{user_by_id}

-- result.scalar_one_or_none()
unfoldable pub scalar_one_or_none : List User → Action (Option User)
scalar_one_or_none [] = pure none
scalar_one_or_none (u ∷ []) = pure (some u)
scalar_one_or_none (u ∷ v ∷ us) = raise multiple_results

pub record TokenResponse : Type 0 where
  pub access_token : String
  pub role : String
  pub user_id : String

-- (User.email == identifier) | (User.id == identifier)
unfoldable pub is_named : String → User → Bool
is_named identifier u = u.email == identifier || u.id == identifier

unfoldable pub check_login : Crypto → ℕ → String → Option User → Action TokenResponse
check_login crypto now password none = raise (http 401)
check_login crypto now password (some u) = do
  raise_if (not (crypto.checkpw password u.hashed_password)) (http 401)
  raise_if (not u.is_active) (http 403)
  log (some u.id) "login" "user" (("email", str u.email) ∷ [])
  pure (record {
    access_token = create_access_token crypto now u.id u.role;
    role = u.role;
    user_id = u.id;
  })

-- POST /login
unfoldable pub login : Crypto → ℕ → String → String → Action TokenResponse
login crypto now email password = do
  found ← query (λ d. select_where (is_named (strip email)) d.users)
  user ← scalar_one_or_none found
  check_login crypto now password user

pub record UserCreate : Type 0 where
  pub id : String
  pub email : String
  pub password : String
  pub role : String

unfoldable pub new_user : Crypto → ℕ → UserCreate → User
new_user crypto salt p = record {
  id = p.id;
  email = p.email;
  hashed_password = crypto.hashpw salt p.password;
  role = p.role;
  is_active = true;
}

unfoldable pub has_email : String → User → Bool
has_email e u = u.email == e

abbrev pub add_user : User → Database → Database
add_user u d = record d { users = d.users ++ u ∷ [] }

abbrev pub update_user_row : String → (User → User) → Database → Database
update_user_row id f d = record d { users = update_where (user_by_id id) f d.users }

unfoldable pub write_user : User → User → Action User
write_user admin u = do
  execute (add_user u)
  commit
  log (some admin.id) "create" "user" (("new_user", str u.id) ∷ ("role", str u.role) ∷ [])
  pure u

unfoldable pub write_new : User → User → Action User
write_new admin u = do
  raise_if (← query (λ d. any_where (user_by_id u.id) d.users)) integrity_error
  write_user admin u

-- POST /users: the email is tested, the primary key is the database's to refuse.
unfoldable pub create_user : Crypto → ℕ → UserCreate → User → Action User
create_user crypto salt p admin = do
  raise_if (← query (λ d. any_where (has_email p.email) d.users)) (http 409)
  write_new admin (new_user crypto salt p)

abbrev pub min_password_length : ℕ
min_password_length = 8

abbrev pub set_password : String → User → User
set_password h u = record u { hashed_password = h }

-- POST /me/password
unfoldable pub change_my_password : Crypto → ℕ → String → String → User → Action (Unit {0})
change_my_password crypto salt current new user = do
  raise_if (not (crypto.checkpw current user.hashed_password)) (http 401)
  raise_if (ltb (count new) min_password_length) (http 400)
  raise_if (new == current) (http 400)
  execute (update_user_row user.id (set_password (crypto.hashpw salt new)))
  commit
  log (some user.id) "change_password" "user" (("self", flag true) ∷ [])

pub record UserUpdate : Type 0 where
  pub role : Option String
  pub is_active : Option Bool

-- VALID_ROLES
unfoldable pub is_valid_role : String → Bool
is_valid_role r = r == "admin" || r == "operator" || r == "viewer"

-- _check_not_protected, with PROTECTED_USER_IDS
unfoldable pub is_protected_from : String → String → Bool
is_protected_from actor target = target == "admin" && not (target == actor)

-- _count_active_admins
unfoldable pub is_active_admin : User → Bool
is_active_admin u = u.role == "admin" && u.is_active

abbrev pub value_or {ℓ} : {A : Type ℓ} → Option A → A → A
value_or none old = old
value_or (some new) old = new

-- target.role = payload.role, target.is_active = payload.is_active, where they are given
unfoldable pub apply_update : UserUpdate → User → User
apply_update p u = record u {
  role = value_or p.role u.role;
  is_active = value_or p.is_active u.is_active;
}

unfoldable pub bad_role : Option String → Bool
bad_role none = false
bad_role (some r) = not (is_valid_role r)

-- would_lose_last_admin
unfoldable pub loses_admin : UserUpdate → User → Bool
loses_admin p u = is_active_admin u && not (is_active_admin (apply_update p u))

-- The changes of the audit entry.
unfoldable pub role_changes : Option String → User → List (String × Detail)
role_changes none u = []
role_changes (some r) u = if r == u.role then [] else ("role", changed_text u.role r) ∷ []

abbrev pub bool_eq : Bool → Bool → Bool
bool_eq true b = b
bool_eq false b = not b

unfoldable pub active_changes : Option Bool → User → List (String × Detail)
active_changes none u = []
active_changes (some b) u =
    if bool_eq b u.is_active then [] else ("is_active", changed_flag u.is_active b) ∷ []

unfoldable pub log_changes : String → String → List (String × Detail) → Action (Unit {0})
log_changes actor target [] = pure tt
log_changes actor target (c ∷ cs) =
    log (some actor) "update" "user" (("target_user", str target) ∷ c ∷ cs)

-- The writes of `update_user`.
unfoldable pub write_update : UserUpdate → User → User → Action User
write_update p admin target = do
  execute (update_user_row target.id (apply_update p))
  commit
  log_changes admin.id target.id (role_changes p.role target ++ active_changes p.is_active target)
  pure (apply_update p target)

-- The guards of `update_user` that look at the target, then the writes.
unfoldable pub update_target : UserUpdate → User → User → Action User
update_target p admin target = do
  raise_if (is_protected_from admin.id target.id) (http 403)
  raise_if (target.id == admin.id) (http 400)
  admins ← query (λ d. count_where is_active_admin d.users)
  raise_if (loses_admin p target && leb admins 1) (http 400)
  write_update p admin target

-- The target of an update, which may not exist.
unfoldable pub update_known : UserUpdate → String → User → Action User
update_known p user_id admin = do
  target ← or_raise (← query (λ d. find_where (user_by_id user_id) d.users)) (http 404)
  update_target p admin target

-- PATCH /users/{user_id}
unfoldable pub update_user : UserUpdate → String → User → Action User
update_user p user_id admin = do
  raise_if (is_none p.role && is_none p.is_active) (http 400)
  raise_if (bad_role p.role) (http 400)
  update_known p user_id admin

unfoldable pub reset_target : Crypto → ℕ → String → User → User → Action String
reset_target crypto salt password admin target = do
  raise_if (is_protected_from admin.id target.id) (http 403)
  execute (update_user_row target.id (set_password (crypto.hashpw salt password)))
  commit
  log (some admin.id) "reset_password" "user" (("target_user", str target.id) ∷ [])
  pure password

-- POST /users/{user_id}/reset-password, with the password that _generate_password drew
unfoldable pub reset_user_password : Crypto → ℕ → String → String → User → Action String
reset_user_password crypto salt password user_id admin = do
  target ← or_raise (← query (λ d. find_where (user_by_id user_id) d.users)) (http 404)
  reset_target crypto salt password admin target
