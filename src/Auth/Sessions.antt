-- ===== src/Auth/Sessions.antt =====
-- A login gives a token that the guards accept until it expires, and a changed password counts.
use mdmfleetmanagement.Prelude.{
  ℕ, ◌+◌, ◌*◌, ◌<◌, String, true, false, none, some, List, [], ◌∷◌, map, ◌==◌, ◌≡◌, refl, sym, ap,
  ◌∙◌, eq_iff, eq_refl, In, inl, inr, Bool-cases, Option-cases, All-In,
}
use mdmfleetmanagement.Prelude.Rows.{
  find_where, select_where, In_of_select, find-In, find-holds, find_none,
}
use mdmfleetmanagement.Prelude.Keys.{Distinct, row_unique}
use mdmfleetmanagement.Prelude.Text.{strip, has_text, text_or}
use mdmfleetmanagement.Models.{Database, User}
use mdmfleetmanagement.Session.{Session, ok, err, http, multiple_results, ◌>>=◌}
use mdmfleetmanagement.Audit.{log, add_entry}
use mdmfleetmanagement.Auth.Tokens.{
  Crypto, Claims, create_access_token, access_token_expire_minutes,
}
use mdmfleetmanagement.Auth.Guards.{extract_token, user_by_id, role_in, require_role}
use mdmfleetmanagement.Auth.Accounts.{
  TokenResponse, is_named, scalar_one_or_none, check_login, login,
}
use mdmfleetmanagement.Auth.Access.{require_role_iff, ok-injective}

-- What the JWT library is used for: the token of the claims is no empty text, and it decodes to
-- them until they expire.
pub record IsTokenOf (crypto : Crypto) (k : Claims) : Type 0 where
  pub nonempty : (crypto.encode k == "") ≡ false
  pub valid : (now : ℕ) → now < k.exp → crypto.decode now (crypto.encode k) ≡ some k

-- The claims that stand in the token of a login.
abbrev pub login_claims : ℕ → TokenResponse → Claims
login_claims now r = record {
  sub = r.user_id;
  role = r.role;
  exp = now + access_token_expire_minutes * 60 * 1_000_000;
}

-- A login that succeeds was for a user that is named so, is active and has the password.
pub record IsLogin (crypto : Crypto) (now : ℕ) (password : String) (d d' : Database)
    (r : TokenResponse) : Type 0 where
  pub user : User
  pub registered : In user d.users
  pub active : user.is_active ≡ true
  pub verified : crypto.checkpw password user.hashed_password ≡ true
  pub id : r.user_id ≡ user.id
  pub role : r.role ≡ user.role
  pub token : r.access_token ≡ create_access_token crypto now user.id user.role
  pub users : d'.users ≡ d.users

check_login_sound :
    (crypto : Crypto) (now : ℕ) (password : String) (u : User) (s s' : Session) (r : TokenResponse)
    → In u s.db.users
    → check_login crypto now password (some u) s ≡ (ok r, s')
    → IsLogin crypto now password s.db s'.db r
unfolding check_login log add_entry
check_login_sound crypto now password u s s' r m h =
    elim (Bool-cases (crypto.checkpw password u.hashed_password)) [
      | inr p ↦ (let g = rw p at h in let q : err (http 401) ≡ ok r = ap (λ x. x.0) g in cc)
      | inl p ↦ elim (Bool-cases u.is_active) [
        | inr a ↦ (let g = rw (p, a) at h in let q : err (http 403) ≡ ok r = ap (λ x. x.0) g in cc)
        | inl a ↦
            (let g = rw (p, a) at h in
              let q = ok-injective _ r (ap (λ x. x.0) g) in
              record {
                user = u;
                registered = m;
                active = a;
                verified = p;
                id = sym (ap (λ (x : TokenResponse). x.user_id) q);
                role = sym (ap (λ (x : TokenResponse). x.role) q);
                token = sym (ap (λ (x : TokenResponse). x.access_token) q);
                users = sym (ap (λ x. x.1.db.users) g);
              })
      ]
    ]

IsLogin-found :
    (crypto : Crypto) (now : ℕ) (password : String) (us : List User) (s s' : Session)
    (r : TokenResponse)
    → ((u : User) → In u us → In u s.db.users)
    → (scalar_one_or_none us >>= check_login crypto now password) s ≡ (ok r, s')
    → IsLogin crypto now password s.db s'.db r
unfolding scalar_one_or_none
IsLogin-found crypto now password [] s s' r k h =
    unfold check_login in let q : err (http 401) ≡ ok r = ap (λ x. x.0) h in cc
IsLogin-found crypto now password (u ∷ []) s s' r k h =
    check_login_sound crypto now password u s s' r (k u (inl refl)) h
IsLogin-found crypto now password (u ∷ v ∷ us) s s' r k h =
    let q : err multiple_results ≡ ok r = ap (λ x. x.0) h in cc

login_sound :
    (crypto : Crypto) (now : ℕ) (email password : String) (s s' : Session) (r : TokenResponse)
    → login crypto now email password s ≡ (ok r, s')
    → IsLogin crypto now password s.db s'.db r
unfolding login
login_sound crypto now email password s s' r h =
    IsLogin-found crypto now password (select_where (is_named (strip email)) s.db.users) s s' r
      (λ u m. In_of_select (is_named (strip email)) u s.db.users m) h

find_by_id :
    (us : List User) (u : User)
    → Distinct (map (λ (x : User). x.id) us)
    → In u us
    → find_where (user_by_id u.id) us ≡ some u
unfolding user_by_id
find_by_id us u d m = elim (Option-cases (find_where (user_by_id u.id) us)) [
  | inl e ↦
      (let q = All-In (λ x. user_by_id u.id x ≡ false) us (find_none (user_by_id u.id) us e) m in
        cc (eq_refl u.id))
  | inr (v, e) ↦
      (let q = (eq_iff v.id u.id).0 (find-holds (user_by_id u.id) us v e) in
        e
        ∙ ap some (row_unique (λ (x : User). x.id) us v u d (find-In (user_by_id u.id) us v e) m q))
]

-- A bearer token that is no empty text is the one that counts.
extract_bearer :
    (t : String)
    → (t == "") ≡ false
    → extract_token (record { bearer = some t; cookie = none }) ≡ some t
unfolding extract_token has_text
extract_bearer t h = rw h

has_text-some : (t : String) → (t == "") ≡ false → has_text (some t) ≡ true
unfolding has_text
has_text-some t h = rw h

text_or-some : (t : String) → (t == "") ≡ false → text_or (some t) "" ≡ t
unfolding text_or
text_or-some t h = rw h

-- After a login that succeeds at `now` the token that it returned, sent as a bearer token before
-- the eight hours are over, passes every guard for the user's role, as the user that logged in.
pub login_then_guard :
    (crypto : Crypto) (now later : ℕ) (email password : String) (roles : List String)
    (s s' : Session) (r : TokenResponse)
    → IsTokenOf crypto (login_claims now r)
    → Distinct (map (λ u. u.id) s.db.users)
    → login crypto now email password s ≡ (ok r, s')
    → later < now + access_token_expire_minutes * 60 * 1_000_000
    → role_in roles r.role ≡ true
    → (u : User) × (u.id ≡ r.user_id)
      × (crypto.checkpw password u.hashed_password ≡ true)
      × (require_role crypto roles later (record { bearer = some r.access_token; cookie = none }) s'
          ≡ (ok u, s'))
unfolding create_access_token
login_then_guard crypto now later email password roles s s' r lib d h t ri =
    let l = login_sound crypto now email password s s' r h in
    let k = login_claims now r in
    let tok : r.access_token ≡ crypto.encode k = rw (l.id, l.role) l.token in
    let full : (r.access_token == "") ≡ false = rw tok lib.nonempty in
    (
      l.user,
      sym l.id,
      l.verified,
      (require_role_iff crypto roles later (record { bearer = some r.access_token; cookie = none })
            s' l.user).1
          (record {
            has_token =
                ap has_text (extract_bearer r.access_token full)
                ∙ has_text-some r.access_token full;
            claims = k;
            decoded =
                ap (λ z. crypto.decode later (text_or z "")) (extract_bearer r.access_token full)
                ∙ ap (crypto.decode later) (text_or-some r.access_token full ∙ tok)
                ∙ lib.valid later t;
            role = ri;
            user = rw l.users (rw l.id (find_by_id s.db.users l.user d l.registered));
            active = l.active;
          }),
    )
