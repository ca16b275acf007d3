-- ===== src/Auth/Access.antt =====
-- Whom the guards let in.
use mdmfleetmanagement.Prelude.{
  ℕ, String, Bool, true, false, not, Option, none, some, List, if◌then◌else◌, ◌≡◌, ◌↔◌, refl, ap,
}
use mdmfleetmanagement.Prelude.Rows.{find_where}
use mdmfleetmanagement.Prelude.Text.{has_text, text_or}
use mdmfleetmanagement.Models.{User}
use mathlib.Core.Path.{subst}
use mdmfleetmanagement.Session.{Session, ok, err, http, pure, raise, raise_if, ◌>>◌}
use mdmfleetmanagement.Auth.Tokens.{Crypto, Claims}
use mdmfleetmanagement.Auth.Guards.{
  Credentials, extract_token, user_by_id, require_active, user_of_claims, guard_claims, role_in,
  require_role,
}

-- What it takes to pass a guard, besides a token: the claims that the token decodes to.
pub record IsAdmitted (crypto : Crypto) (roles : List String) (now : ℕ) (c : Credentials)
    (s : Session) (u : User) : Type 0 where
  pub has_token : has_text (extract_token c) ≡ true
  pub claims : Claims
  pub decoded : crypto.decode now (text_or (extract_token c) "") ≡ some claims
  pub role : role_in roles claims.role ≡ true
  pub user : find_where (user_by_id claims.sub) s.db.users ≡ some u
  pub active : u.is_active ≡ true

pub ok-injective : {A : Type 0} (a b : A) → ok a ≡ ok b → a ≡ b
ok-injective a b e = cc

active_or_401 :
    (b : Bool) (v u : User) (s s' : Session)
    → (if b then pure v else raise (http 401)) s ≡ (ok u, s')
    → (b ≡ true) × (v ≡ u)
active_or_401 true v u s s' h = (refl, ok-injective v u (ap (λ p. p.0) h))
active_or_401 false v u s s' h = let e : err (http 401) ≡ ok u = ap (λ p. p.0) h in cc

require_active_sound :
    (o : Option User) (u : User) (s s' : Session)
    → require_active o s ≡ (ok u, s')
    → (o ≡ some u) × (u.is_active ≡ true)
unfolding require_active
require_active_sound none u s s' h = let e : err (http 401) ≡ ok u = ap (λ p. p.0) h in cc
require_active_sound (some v) u s s' h =
    let (a, e) = active_or_401 v.is_active v u s s' h in
    (ap some e, subst (λ (w : User). w.is_active ≡ true) e a)

guard_claims_sound :
    (roles : List String) (o : Option Claims) (u : User) (s s' : Session)
    → guard_claims roles o s ≡ (ok u, s')
    → (k : Claims) × (o ≡ some k)
      × (role_in roles k.role ≡ true)
      × (find_where (user_by_id k.sub) s.db.users ≡ some u)
      × (u.is_active ≡ true)
unfolding guard_claims user_of_claims
guard_claims_sound roles none u s s' h = let e : err (http 401) ≡ ok u = ap (λ p. p.0) h in cc
guard_claims_sound roles (some k) u s s' h = by_role (role_in roles k.role) refl h
  where
    by_role :
        (b : Bool)
        → role_in roles k.role ≡ b
        → (raise_if (not b) (http 403) >> user_of_claims k) s ≡ (ok u, s')
        → (k' : Claims) × (some k ≡ some k')
          × (role_in roles k'.role ≡ true)
          × (find_where (user_by_id k'.sub) s.db.users ≡ some u)
          × (u.is_active ≡ true)
    by_role true r q =
        let (a, b) = require_active_sound (find_where (user_by_id k.sub) s.db.users) u s s' q in
        (k, refl, r, a, b)
    by_role false r q = let e : err (http 403) ≡ ok u = ap (λ p. p.0) q in cc

-- A guard `require_role(*roles)` returns a user exactly if the request has a token that decodes
-- now, the role of the token is one of the roles, and the token's user exists and is active; the
-- user returned is that one, and nothing is written.
pub require_role_iff :
    (crypto : Crypto) (roles : List String) (now : ℕ) (c : Credentials) (s : Session) (u : User)
    → ((require_role crypto roles now c s ≡ (ok u, s)) ↔ IsAdmitted crypto roles now c s u)
unfolding require_role
require_role_iff crypto roles now c s u = (
  by_token (has_text (extract_token c)) refl,
  λ a. rw a.has_token (
      rw a.decoded
        (unfold guard_claims user_of_claims require_active in rw a.role (rw a.user (rw a.active)))),
)
  where
    by_token :
        (b : Bool)
        → has_text (extract_token c) ≡ b
        → (if b
              then guard_claims roles (crypto.decode now (text_or (extract_token c) ""))
              else raise (http 401))
            s
          ≡ (ok u, s)
        → IsAdmitted crypto roles now c s u
    by_token true e h =
        let (k, d, r, f, a) =
          guard_claims_sound roles (crypto.decode now (text_or (extract_token c) "")) u s s h in
        record { has_token = e; claims = k; decoded = d; role = r; user = f; active = a }
    by_token false e h = let q : err (http 401) ≡ ok u = ap (λ p. p.0) h in cc
