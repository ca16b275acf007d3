-- ===== src/Auth/Guards.antt =====
-- api/auth.py, the dependencies that find out who calls: _extract_token, get_current_user,
-- require_auth, require_role.
use mdmfleetmanagement.Prelude.{ℕ, String, Bool, not, Option, none, some, List, if◌then◌else◌, ◌==◌}
use mdmfleetmanagement.Prelude.Rows.{find_where, any_where}
use mdmfleetmanagement.Prelude.Text.{has_text, text_or}
use mdmfleetmanagement.Models.{User}
use mdmfleetmanagement.Session.{Action, http, pure, raise, raise_if, query, ◌>>=◌, ◌>>◌}
use mdmfleetmanagement.Auth.Tokens.{Crypto, Claims}

-- What a request carries: the credentials of an Authorization header, and the session cookie.
pub record Credentials : Type 0 where
  pub bearer : Option String
  pub cookie : Option String

-- _extract_token
unfoldable pub extract_token : Credentials → Option String
extract_token c = if has_text c.bearer then c.bearer else c.cookie

unfoldable pub user_by_id : String → User → Bool
user_by_id id u = u.id == id

-- if not user or not user.is_active: raise 401
unfoldable pub require_active : Option User → Action User
require_active none = raise (http 401)
require_active (some u) = if u.is_active then pure u else raise (http 401)

unfoldable pub user_of_claims : Claims → Action User
user_of_claims claims = do
  user ← query (λ d. find_where (user_by_id claims.sub) d.users)
  require_active user

unfoldable pub user_of_token : Option Claims → Action User
user_of_token none = raise (http 401)
user_of_token (some claims) = user_of_claims claims

abbrev pub as_some : {A : Type 0} → Action A → Action (Option A)
as_some m = m >>= λ a. pure (some a)

-- get_current_user: None without a token.
unfoldable pub get_current_user : Crypto → ℕ → Credentials → Action (Option User)
get_current_user crypto now c =
    if has_text (extract_token c)
    then as_some (user_of_token (crypto.decode now (text_or (extract_token c) "")))
    else pure none

unfoldable pub or_401 : Option User → Action User
or_401 none = raise (http 401)
or_401 (some u) = pure u

-- require_auth
unfoldable pub require_auth : Crypto → ℕ → Credentials → Action User
require_auth crypto now c = do user ← get_current_user crypto now c; or_401 user

unfoldable pub role_in : List String → String → Bool
role_in roles r = any_where (λ x. r == x) roles

-- The guard after the token is decoded: the role is the token's.
unfoldable pub guard_claims : List String → Option Claims → Action User
guard_claims roles none = raise (http 401)
guard_claims roles (some claims) = do
  raise_if (not (role_in roles claims.role)) (http 403)
  user_of_claims claims

-- require_role(*roles)
unfoldable pub require_role : Crypto → List String → ℕ → Credentials → Action User
require_role crypto roles now c =
    if has_text (extract_token c)
    then guard_claims roles (crypto.decode now (text_or (extract_token c) ""))
    else raise (http 401)
