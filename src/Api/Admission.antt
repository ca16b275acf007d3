-- ===== src/Api/Admission.antt =====
-- Whom the guards of the routes let through to the endpoints.
use mdmfleetmanagement.Prelude.{
  String, Bool, true, false, Option, none, some, List, [], ◌∷◌, if◌then◌else◌, ◌≡◌, refl, arith,
  inl, inr, Bool-cases,
}
use mdmfleetmanagement.Prelude.Rows.{find_where}
use mdmfleetmanagement.Prelude.Text.{has_text, text_or}
use mdmfleetmanagement.Models.{User}
use mdmfleetmanagement.Session.{Session, Action, ok, err, http, ◌>>=◌}
use mdmfleetmanagement.Auth.Tokens.{Claims}
use mdmfleetmanagement.Auth.Guards.{
  Credentials, extract_token, user_by_id, require_active, user_of_claims, user_of_token,
  get_current_user, require_auth, or_401, role_in, guard_claims, require_role,
}
use mdmfleetmanagement.Api.Requests.{Request}
use mdmfleetmanagement.Api.Handle.{
  Server, role, authenticated, current, any_role, operators, guards, admit, pass, endpoint, handle,
}

-- The claims of the token that a request carries, if it carries one that decodes.
abbrev pub claims_of : Server → Credentials → Option Claims
claims_of env c =
    if has_text (extract_token c)
    then env.crypto.decode env.now (text_or (extract_token c) "")
    else none

-- Who may send a request: anyone, any account, or the accounts of some roles.
pub data Access : Type 0 where
  anyone : Access
  account : Access
  roles : List String → Access

abbrev member_roles : List String
member_roles = "admin" ∷ "operator" ∷ "viewer" ∷ []

abbrev editor_roles : List String
editor_roles = "admin" ∷ "operator" ∷ []

-- The access that each request has.
abbrev pub access : Request → Access
access (Request.login _ _) = anyone
access Request.logout = anyone
access (Request.download_firmware _) = anyone
access (Request.get_manifest _) = anyone
access Request.verify = account
access (Request.change_my_password _ _) = account
access (Request.create_user _) = roles ("admin" ∷ [])
access Request.list_users = roles ("admin" ∷ [])
access (Request.update_user _ _) = roles ("admin" ∷ [])
access (Request.reset_user_password _) = roles ("admin" ∷ [])
access (Request.upload_firmware _ _ _) = roles editor_roles
access (Request.create_group _) = roles editor_roles
access (Request.update_group _ _) = roles editor_roles
access (Request.delete_group _) = roles editor_roles
access (Request.create_scheduled _) = roles editor_roles
access (Request.cancel_scheduled _) = roles editor_roles
access (Request.provision _) = roles editor_roles
access _ = roles member_roles

abbrev pub allows : Access → String → Bool
allows anyone r = true
allows account r = true
allows (roles rs) r = role_in rs r

abbrev pub is_public : Request → Bool
is_public r = elim (access r) [ anyone ↦ true | _ ↦ false ]

editor_member : (r : String) → role_in editor_roles r ≡ true → role_in member_roles r ≡ true
unfolding role_in
editor_member r e = ground arith

-- A request whose token names a user that exists and is active.
pub record IsCaller (env : Server) (c : Credentials) (s : Session) (k : Claims) (u : User)
    : Type 0 where
  pub has_token : has_text (extract_token c) ≡ true
  pub decoded : env.crypto.decode env.now (text_or (extract_token c) "") ≡ some k
  pub user : find_where (user_by_id k.sub) s.db.users ≡ some u
  pub active : u.is_active ≡ true

module _ (env : Server) (c : Credentials) (s : Session) (k : Claims) (u : User)
    (h : IsCaller env c s k u) where
  admit_current : admit env c current s ≡ (ok (some u), s)
  unfolding admit get_current_user user_of_token user_of_claims require_active
  admit_current = rw (h.has_token, h.decoded) (rw h.user (rw h.active refl))

  admit_authenticated : admit env c authenticated s ≡ (ok (some u), s)
  unfolding admit require_auth get_current_user user_of_token user_of_claims require_active or_401
  admit_authenticated = rw (h.has_token, h.decoded) (rw h.user (rw h.active refl))

  admit_role :
      (rs : List String)
      → admit env c (role rs) s
        ≡ (if role_in rs k.role then (ok (some u), s) else (err (http 403), s))
  unfolding admit require_role guard_claims user_of_claims require_active
  admit_role rs = elim (Bool-cases (role_in rs k.role)) [
    | inl e ↦ rw (h.has_token, h.decoded, e) (rw h.user (rw h.active refl))
    | inr e ↦ rw (h.has_token, h.decoded, e) refl
  ]

  module _ {B : Type 0} (f : Option User → Action B) where
    pass_account : (pass env c (authenticated ∷ []) none >>= f) s ≡ f (some u) s
    unfolding pass
    pass_account = rw (admit_authenticated) refl

    pass_role :
        (rs : List String)
        → (pass env c (role rs ∷ []) none >>= f) s
          ≡ (if role_in rs k.role then f (some u) s else (err (http 403), s))
    unfolding pass
    pass_role rs = elim (Bool-cases (role_in rs k.role)) [
      | inl e ↦ rw (admit_role rs) (rw e refl)
      | inr e ↦ rw (admit_role rs) (rw e refl)
    ]

    pass_member :
        (pass env c (any_role ∷ current ∷ []) none >>= f) s
        ≡ (if role_in member_roles k.role then f (some u) s else (err (http 403), s))
    unfolding pass
    pass_member = elim (Bool-cases (role_in member_roles k.role)) [
      | inl e ↦ rw (admit_role member_roles) (rw e (rw admit_current refl))
      | inr e ↦ rw (admit_role member_roles) (rw e refl)
    ]

    pass_editor :
        (pass env c (any_role ∷ operators ∷ current ∷ []) none >>= f) s
        ≡ (if role_in editor_roles k.role then f (some u) s else (err (http 403), s))
    unfolding pass
    pass_editor = elim (Bool-cases (role_in editor_roles k.role)) [
      | inl e ↦
          (let m = editor_member k.role e in
            rw (admit_role member_roles)
              (rw m (rw (admit_role editor_roles) (rw e (rw admit_current refl)))))
      | inr e ↦ (elim (Bool-cases (role_in member_roles k.role)) [
        | inl m ↦ rw (admit_role member_roles) (rw m (rw (admit_role editor_roles) (rw e refl)))
        | inr m ↦ rw (admit_role member_roles) (rw (m, e) refl)
      ])
    ]

-- The user that an endpoint is given.
abbrev pub caller : Request → User → Option User
caller r u = if is_public r then none else some u

pub handle_decides :
    (env : Server) (c : Credentials) (r : Request) (s : Session) (k : Claims) (u : User)
    → IsCaller env c s k u
    → handle env c r s
      ≡ (if allows (access r) k.role then endpoint env (caller r u) r s else (err (http 403), s))
unfolding handle guards
handle_decides env c (Request.login a b) s k u h = unfold pass in refl
handle_decides env c Request.logout s k u h = unfold pass in refl
handle_decides env c Request.verify s k u h =
    pass_account env c s k u h (λ v. endpoint env v Request.verify)
handle_decides env c (Request.change_my_password a b) s k u h =
    pass_account env c s k u h (λ v. endpoint env v (Request.change_my_password a b))
handle_decides env c (Request.create_user a) s k u h =
    pass_role env c s k u h (λ v. endpoint env v (Request.create_user a)) ("admin" ∷ [])
handle_decides env c Request.list_users s k u h =
    pass_role env c s k u h (λ v. endpoint env v Request.list_users) ("admin" ∷ [])
handle_decides env c (Request.update_user a b) s k u h =
    pass_role env c s k u h (λ v. endpoint env v (Request.update_user a b)) ("admin" ∷ [])
handle_decides env c (Request.reset_user_password a) s k u h =
    pass_role env c s k u h (λ v. endpoint env v (Request.reset_user_password a)) ("admin" ∷ [])
handle_decides env c (Request.upload_firmware a b e) s k u h =
    pass_editor env c s k u h (λ v. endpoint env v (Request.upload_firmware a b e))
handle_decides env c (Request.start_rollout a) s k u h =
    pass_member env c s k u h (λ v. endpoint env v (Request.start_rollout a))
handle_decides env c (Request.create_group a) s k u h =
    pass_editor env c s k u h (λ v. endpoint env v (Request.create_group a))
handle_decides env c (Request.update_group a b) s k u h =
    pass_editor env c s k u h (λ v. endpoint env v (Request.update_group a b))
handle_decides env c (Request.delete_group a) s k u h =
    pass_editor env c s k u h (λ v. endpoint env v (Request.delete_group a))
handle_decides env c (Request.create_scheduled a) s k u h =
    pass_editor env c s k u h (λ v. endpoint env v (Request.create_scheduled a))
handle_decides env c (Request.cancel_scheduled a) s k u h =
    pass_editor env c s k u h (λ v. endpoint env v (Request.cancel_scheduled a))
handle_decides env c (Request.provision a) s k u h =
    pass_role env c s k u h (λ v. endpoint env v (Request.provision a)) editor_roles
handle_decides env c (Request.download_firmware a) s k u h = unfold pass in refl
handle_decides env c (Request.get_manifest a) s k u h = unfold pass in refl
handle_decides env c r s k u h = pass_role env c s k u h (λ v. endpoint env v r) member_roles
