-- ===== src/Auth/Browser.antt =====
-- api/auth.py, what concerns the browser: the session cookie, the headers for nginx, sign-out.
use mdmfleetmanagement.Prelude.{ℕ, ◌*◌, String, Bool, true, List, [], ◌∷◌}
use mdmfleetmanagement.Models.{User}

pub record Cookie : Type 0 where
  pub key : String
  pub value : String
  pub max_age : ℕ
  pub httponly : Bool
  pub secure : Bool
  pub samesite : String
  pub path : String

abbrev pub cookie_name : String
cookie_name = "mdm_session"

abbrev pub cookie_max_age : ℕ
cookie_max_age = 60 * 60 * 24

-- _set_session_cookie
unfoldable pub set_session_cookie : String → Cookie
set_session_cookie token = record {
  key = cookie_name;
  value = token;
  max_age = cookie_max_age;
  httponly = true;
  secure = true;
  samesite = "lax";
  path = "/";
}

-- POST /logout: the headers beside the cookie that is deleted
abbrev pub logout : List (String × String)
logout = ("Clear-Site-Data", "\"cookies\", \"storage\", \"cache\"") ∷ []

-- GET /verify: the headers for nginx
unfoldable pub verify : User → List (String × String)
verify user = ("X-Auth-User", user.email) ∷ ("X-Auth-Role", user.role) ∷ ("X-Auth-Id", user.id) ∷ []
