-- ===== src/Auth/Calls.antt =====
-- Any sequence of calls of the account endpoints, each in a session of its own.
use mdmfleetmanagement.Prelude.{ℕ, ◌≤◌, String, not, Option, none, some, List, [], ◌∷◌, map}
use mdmfleetmanagement.Prelude.Rows.{select_where, count_where}
use mdmfleetmanagement.Prelude.Keys.{Distinct}
use mdmfleetmanagement.Models.{Database, User, str}
use mdmfleetmanagement.Session.{http}
use mdmfleetmanagement.Session.Keeps.{
  Keeps, Keeps-pure, Keeps-raise, Keeps-query, Keeps-raise_if, Keeps-bind, in_session-keeps,
}
use mdmfleetmanagement.Prelude.Text.{strip}
use mdmfleetmanagement.Mqtt.Client.{in_session}
use mdmfleetmanagement.Auth.Tokens.{Crypto}
use mdmfleetmanagement.Auth.Accounts.{
  UserCreate, UserUpdate, is_active_admin, is_named, scalar_one_or_none, check_login, login,
  create_user, change_my_password, update_user, reset_user_password,
}
use mdmfleetmanagement.Auth.LastAdmin.{
  HasAdmin, Keeps-log, Keeps-update_user, Keeps-create_user, Keeps-change_my_password,
  Keeps-reset_user_password,
}

-- A call that has passed its guard, with the user that the guard returned. The numbers are the
-- clock and the salt.
pub data AccountCall : Type 0 where
  log_in : ℕ → String → String → AccountCall
  create : ℕ → UserCreate → User → AccountCall
  change : ℕ → String → String → User → AccountCall
  edit : UserUpdate → String → User → AccountCall
  reset : ℕ → String → String → User → AccountCall

unfoldable pub serve : Crypto → AccountCall → Database → Database
serve crypto (log_in now email password) d = in_session (login crypto now email password) d
serve crypto (create salt p admin) d = in_session (create_user crypto salt p admin) d
serve crypto (change salt current new user) d =
    in_session (change_my_password crypto salt current new user) d
serve crypto (edit p user_id admin) d = in_session (update_user p user_id admin) d
serve crypto (reset salt password user_id admin) d =
    in_session (reset_user_password crypto salt password user_id admin) d

unfoldable pub serve_all : Crypto → List AccountCall → Database → Database
serve_all crypto [] d = d
serve_all crypto (c ∷ cs) d = serve_all crypto cs (serve crypto c d)

Keeps-scalar_one_or_none : (us : List User) → Keeps HasAdmin (scalar_one_or_none us)
unfolding scalar_one_or_none
Keeps-scalar_one_or_none [] = record { at = λ s h. h }
Keeps-scalar_one_or_none (u ∷ []) = record { at = λ s h. h }
Keeps-scalar_one_or_none (u ∷ v ∷ us) = record { at = λ s h. h }

Keeps-check_login :
    (crypto : Crypto) (now : ℕ) (password : String) (o : Option User)
    → Keeps HasAdmin (check_login crypto now password o)
unfolding check_login
Keeps-check_login crypto now password none = Keeps-raise (http 401)
Keeps-check_login crypto now password (some u) =
    Keeps-bind _ _ (Keeps-raise_if (not (crypto.checkpw password u.hashed_password)) (http 401))
      λ _. Keeps-bind _ _ (Keeps-raise_if (not u.is_active) (http 403)) λ _.
        Keeps-bind _ _ (Keeps-log (some u.id) "login" "user" (("email", str u.email) ∷ []))
          λ _. Keeps-pure _

pub Keeps-login :
    (crypto : Crypto) (now : ℕ) (email password : String)
    → Keeps HasAdmin (login crypto now email password)
unfolding login
Keeps-login crypto now email password =
    Keeps-bind _ _ (Keeps-query (λ d. select_where (is_named (strip email)) d.users)) λ found.
      Keeps-bind _ _ (Keeps-scalar_one_or_none found)
        λ user. Keeps-check_login crypto now password user

serve-HasAdmin :
    (crypto : Crypto) (c : AccountCall) (d : Database) → HasAdmin d → HasAdmin (serve crypto c d)
unfolding serve in_session
serve-HasAdmin crypto (log_in now email password) d h =
    in_session-keeps _ d (Keeps-login crypto now email password) h
serve-HasAdmin crypto (create salt p admin) d h =
    in_session-keeps _ d (Keeps-create_user crypto salt p admin) h
serve-HasAdmin crypto (change salt current new user) d h =
    in_session-keeps _ d (Keeps-change_my_password crypto salt current new user) h
serve-HasAdmin crypto (edit p user_id admin) d h =
    in_session-keeps _ d (Keeps-update_user p user_id admin) h
serve-HasAdmin crypto (reset salt password user_id admin) d h =
    in_session-keeps _ d (Keeps-reset_user_password crypto salt password user_id admin) h

serve_all-HasAdmin :
    (crypto : Crypto) (cs : List AccountCall) (d : Database)
    → HasAdmin d
    → HasAdmin (serve_all crypto cs d)
unfolding serve_all
serve_all-HasAdmin crypto [] d h = h
serve_all-HasAdmin crypto (c ∷ cs) d h =
    serve_all-HasAdmin crypto cs (serve crypto c d) (serve-HasAdmin crypto c d h)

-- If user ids are distinct and there is an active admin, then after any calls of login,
-- create_user, change_my_password, update_user and reset_user_password, one after the other and by
-- anyone, whether they succeed or not, user ids are distinct and there is an active admin.
pub accounts_keep_admin :
    (crypto : Crypto) (cs : List AccountCall) (d : Database)
    → Distinct (map (λ u. u.id) d.users)
    → 1 ≤ count_where is_active_admin d.users
    → let d' = serve_all crypto cs d in
      Distinct (map (λ u. u.id) d'.users) × (1 ≤ count_where is_active_admin d'.users)
accounts_keep_admin crypto cs d h k =
    let r = serve_all-HasAdmin crypto cs d (record { ids = h; admin = k }) in (r.ids, r.admin)
