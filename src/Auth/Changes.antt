-- ===== src/Auth/Changes.antt =====
-- A token that was made before its user is changed.
use mathlib.Core.Path.{subst}
use mdmfleetmanagement.Prelude.{
  inl, inr, ℕ, String, some, List, [], ◌∷◌, ◌++◌, ◌≡◌, refl, sym, ap, ◌∙◌, ◌==◌, eq_iff, ◌&&◌, leb,
  is_none, if◌then◌else◌, Bool-cases,
}
use mdmfleetmanagement.Prelude.Rows.{find_where, update_where, count_where, find-update, find-holds}
use mdmfleetmanagement.Models.{User, Detail}
use mdmfleetmanagement.Session.{Session, ok, err, http}
use mdmfleetmanagement.Audit.{log, add_entry}
use mdmfleetmanagement.Auth.Tokens.{Crypto}
use mdmfleetmanagement.Auth.Guards.{
  Credentials, user_by_id, require_active, user_of_claims, guard_claims, require_role,
}
use mdmfleetmanagement.Auth.Accounts.{
  UserUpdate, update_user_row, apply_update, loses_admin, is_active_admin, is_protected_from,
  bad_role, role_changes, active_changes, log_changes, write_update, update_target, update_known,
  update_user,
}
use mdmfleetmanagement.Auth.Access.{IsAdmitted, require_role_iff, ok-injective}

-- The users after a change of the row of `t`.
abbrev Changed : UserUpdate → User → Session → Session → Type 0
Changed p t s s' = s'.db.users ≡ update_where (user_by_id t.id) (apply_update p) s.db.users

log_changes_lem :
    (actor target : String) (cs : List (String × Detail)) (s : Session)
    → (s' : Session) × (log_changes actor target cs s ≡ (ok tt, s')) × (s'.db.users ≡ s.db.users)
unfolding log_changes log add_entry
log_changes_lem actor target [] s = (s, refl, refl)
log_changes_lem actor target (c ∷ cs) s = (_, refl, refl)

write_update_lem :
    (p : UserUpdate) (admin t : User) (s : Session)
    → (s' : Session) × (write_update p admin t s ≡ (ok (apply_update p t), s')) × Changed p t s s'
unfolding write_update
write_update_lem p admin t s =
    let d = update_user_row t.id (apply_update p) s.db in
    let (s', e, q) =
      log_changes_lem admin.id t.id (role_changes p.role t ++ active_changes p.is_active t)
        (record s { committed = d; db = d }) in
    (s', rw e refl, q)

abbrev IsChange : UserUpdate → User → User → Session → Session → Type 0
IsChange p t v s s' = (v ≡ apply_update p t) × Changed p t s s'

update_target_lem :
    (p : UserUpdate) (admin t v : User) (s s' : Session)
    → update_target p admin t s ≡ (ok v, s')
    → IsChange p t v s s'
unfolding update_target
update_target_lem p admin t v s s' h = elim (Bool-cases (is_protected_from admin.id t.id)) [
  | inl a ↦ (let g = rw a at h in let e : err (http 403) ≡ ok v = ap (λ q. q.0) g in cc)
  | inr a ↦ (elim (Bool-cases (t.id == admin.id)) [
    | inl b ↦ (let g = rw (a, b) at h in let e : err (http 400) ≡ ok v = ap (λ q. q.0) g in cc)
    | inr b ↦
        (elim (Bool-cases (loses_admin p t && leb (count_where is_active_admin s.db.users) 1)) [
          | inl c ↦
              (let g = rw (a, b, c) at h in let e : err (http 400) ≡ ok v = ap (λ q. q.0) g in cc)
          | inr c ↦
              (let g = rw (a, b, c) at h in
                let (s'', e, q) = write_update_lem p admin t s in
                let k = sym g ∙ e in
                (
                  ok-injective v (apply_update p t) (ap (λ z. z.0) k),
                  subst (λ z. Changed p t s z) (sym (ap (λ z. z.1) k)) q,
                ))
        ])
  ])
]

update_user_lem :
    (p : UserUpdate) (id : String) (admin u v : User) (s s' : Session)
    → find_where (user_by_id id) s.db.users ≡ some u
    → update_user p id admin s ≡ (ok v, s')
    → IsChange p u v s s'
unfolding update_user update_known
update_user_lem p id admin u v s s' f h =
    elim (Bool-cases (is_none p.role && is_none p.is_active)) [
      | inl a ↦ (let g = rw a at h in let e : err (http 400) ≡ ok v = ap (λ q. q.0) g in cc)
      | inr a ↦ (elim (Bool-cases (bad_role p.role)) [
        | inl b ↦ (let g = rw (a, b) at h in let e : err (http 400) ≡ ok v = ap (λ q. q.0) g in cc)
        | inr b ↦ (let g = rw (a, b, f) at h in update_target_lem p admin u v s s' g)
      ])
    ]

-- What a guard answers once the token, its role and its user are settled.
guard_of_user :
    (crypto : Crypto) (roles : List String) (now : ℕ) (c : Credentials) (u v : User)
    (s s' : Session)
    → (a : IsAdmitted crypto roles now c s u)
    → find_where (user_by_id a.claims.sub) s'.db.users ≡ some v
    → require_role crypto roles now c s' ≡ ((if v.is_active then ok v else err (http 401)), s')
unfolding require_role guard_claims user_of_claims require_active
guard_of_user crypto roles now c u v s s' a f = rw a.has_token (
    rw a.decoded
      (rw a.role (rw f (elim (Bool-cases v.is_active) [ inl e ↦ rw e refl | inr e ↦ rw e refl ]))))

same_id :
    (id : String) (p : UserUpdate) (y : User) → user_by_id id (apply_update p y) ≡ user_by_id id y
unfolding user_by_id apply_update
same_id id p y = refl

-- The user of a token that passed a guard is changed by an admin. The same credentials pass the
-- same guard afterwards as the changed user, whatever the new role, as long as the token decodes
-- and the user is active; a user who is no longer active is answered 401 at once.
pub update_user_then_guard :
    (crypto : Crypto) (roles : List String) (now : ℕ) (c : Credentials) (p : UserUpdate)
    (admin u v : User) (s s' : Session)
    → require_role crypto roles now c s ≡ (ok u, s)
    → update_user p u.id admin s ≡ (ok v, s')
    → (v ≡ apply_update p u)
      × (require_role crypto roles now c s' ≡ ((if v.is_active then ok v else err (http 401)), s'))
update_user_then_guard crypto roles now c p admin u v s s' g h =
    let a = (require_role_iff crypto roles now c s u).0 g in
    let own =
      (eq_iff u.id a.claims.sub).0
        (unfold user_by_id in find-holds (user_by_id a.claims.sub) s.db.users u a.user) in
    let found : find_where (user_by_id u.id) s.db.users ≡ some u =
      subst (λ i. find_where (user_by_id i) s.db.users ≡ some u) (sym own) a.user in
    let (e, q) = update_user_lem p u.id admin u v s s' found h in
    let sub = a.claims.sub in
    let changed : find_where (user_by_id u.id) s'.db.users ≡ some v =
      ap (find_where (user_by_id u.id)) q
      ∙ find-update (user_by_id u.id) (apply_update p) s.db.users u (same_id u.id p) found
      ∙ ap some (sym e) in
    let named : find_where (user_by_id sub) s'.db.users ≡ some v =
      subst (λ i. find_where (user_by_id i) s'.db.users ≡ some v) own changed in
    (e, guard_of_user crypto roles now c u v s s' a named)
