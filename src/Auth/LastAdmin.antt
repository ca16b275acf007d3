-- ===== src/Auth/LastAdmin.antt =====
-- The system is never left without an active admin.
use mdmfleetmanagement.Prelude.{
  ℕ, ◌+◌, ◌≤◌, String, Bool, true, false, not, Option, none, some, List, [], ◌∷◌, ◌++◌, map,
  if◌then◌else◌, ◌==◌, ◌&&◌, leb, ltb, is_none, ◌≡◌, refl, sym, arith, eq_iff, eq_refl, All, In,
  inl, inr, Bool-cases,
}
use Prim.Native.String.{count}
use mathlib.Core.Path.{subst}
use mathlib.Core.List.{map-append}
use mdmfleetmanagement.Prelude.Rows.{
  find_where, update_where, count_where, any_where, map-update, count-update, count-append,
  update_none, find-In,
}
use mdmfleetmanagement.Prelude.Keys.{Distinct, Distinct-snoc, In-map, In_of_map, any_none}
use mdmfleetmanagement.Models.{Database, User, Detail, str, flag}
use mdmfleetmanagement.Session.{Session, http, integrity_error, raise_if, or_raise, ◌>>=◌, ◌>>◌}
use mdmfleetmanagement.Session.Keeps.{
  Keeps, Keeps-pure, Keeps-query, Keeps-or_raise, Keeps-raise_if, Keeps-execute, Keeps-commit,
  Keeps-bind,
}
use mdmfleetmanagement.Audit.{log, add_entry}
use mdmfleetmanagement.Auth.Tokens.{Crypto}
use mdmfleetmanagement.Auth.Guards.{user_by_id}
use mdmfleetmanagement.Auth.Accounts.{
  UserUpdate, UserCreate, is_active_admin, loses_admin, apply_update, update_user_row, log_changes,
  update_target, update_user, set_password, is_protected_from, update_known, write_new, bad_role,
  min_password_length, write_update, write_user, has_email, role_changes, active_changes,
  change_my_password, reset_user_password, reset_target, create_user, new_user, add_user,
}

-- User ids are distinct, and some user is an active admin.
pub record HasAdmin (d : Database) : Type 0 where
  pub ids : Distinct (map (λ u. u.id) d.users)
  pub admin : 1 ≤ count_where is_active_admin d.users

untouched_rest :
    (k : String) (us : List User)
    → ¬ (In k (map (λ u. u.id) us))
    → All (λ u. user_by_id k u ≡ false) us
unfolding user_by_id
untouched_rest k [] n = tt
untouched_rest k (u ∷ us) n = (
  ground (arith, eq_iff u.id k, λ (e : u.id ≡ k). n (inl (sym e))),
  untouched_rest k us (λ m. n (inr m)),
)

user_by_id_refl : (t : User) → user_by_id t.id t ≡ true
unfolding user_by_id
user_by_id_refl t = eq_refl t.id

user_by_id_sound : (k : String) (u : User) → user_by_id k u ≡ true → u.id ≡ k
unfolding user_by_id
user_by_id_sound k u h = (eq_iff u.id k).0 h

abbrev Falls : (User → User) → User → List User → Type 0
Falls f t us =
    count_where is_active_admin us
    ≤ count_where is_active_admin (update_where (user_by_id t.id) f us)
      + (if is_active_admin t && not (is_active_admin (f t)) then 1 else 0)

Falls-head :
    (f : User → User) (us : List User) (t : User)
    → ¬ (In t.id (map (λ (u : User). u.id) us))
    → Falls f t (t ∷ us)
Falls-head f us t n =
    rw (user_by_id_refl t)
      (rw (update_none (user_by_id t.id) f us (untouched_rest t.id us n)) (ground arith))

-- The number of active admins falls by one at most, and only if the user is one and is made none.
count_after :
    (f : User → User) (us : List User) (t : User)
    → Distinct (map (λ (u : User). u.id) us)
    → In t us
    → Falls f t us
count_after f [] t d m = absurd m
count_after f (u ∷ us) t d (inl e) =
    subst (λ w. Falls f t (w ∷ us)) e
      (Falls-head f us t
        (subst (λ (w : User). ¬ (In w.id (map (λ (x : User). x.id) us))) (sym e) d.0))
count_after f (u ∷ us) t d (inr m) = elim (Bool-cases (user_by_id t.id u)) [
  | inl h ↦ absurd (
      d.0 (
        subst (λ k. In k (map (λ (x : User). x.id) us)) (sym (user_by_id_sound t.id u h))
          (In-map (λ (x : User). x.id) t us m)))
  | inr h ↦ rw h (omega (arith, count_after f us t d.1 m))
]

update-HasAdmin :
    (f : User → User) (d : Database) (t : User)
    → ((u : User) → (f u).id ≡ u.id)
    → In t d.users
    → (is_active_admin t && not (is_active_admin (f t)))
        && leb (count_where is_active_admin d.users) 1
      ≡ false
    → HasAdmin d
    → HasAdmin (update_user_row t.id f d)
update-HasAdmin f d t k m safe h = record {
  ids = rw (map-update (λ (u : User). u.id) (user_by_id t.id) f d.users k) h.ids;
  admin = ground (arith, count_after f d.users t h.ids m, h.admin);
}

abbrev Both : Session → Type 0
Both s = HasAdmin s.committed × HasAdmin s.db

pub Keeps-log :
    (user : Option String) (action resource : String) (details : List (String × Detail))
    → Keeps HasAdmin (log user action resource details)
unfolding log add_entry
Keeps-log user action resource details =
    Keeps-bind _ _
      (Keeps-execute (add_entry user action resource details)
        (λ d h. record { ids = h.ids; admin = h.admin }))
      λ _. Keeps-commit

Keeps-log_changes :
    (actor target : String) (cs : List (String × Detail))
    → Keeps HasAdmin (log_changes actor target cs)
unfolding log_changes
Keeps-log_changes actor target [] = Keeps-pure tt
Keeps-log_changes actor target (c ∷ cs) =
    Keeps-log (some actor) "update" "user" (("target_user", str target) ∷ c ∷ cs)

write_update-HasAdmin :
    (p : UserUpdate) (admin target : User) (s : Session)
    → In target s.db.users
    → (loses_admin p target && leb (count_where is_active_admin s.db.users) 1) ≡ false
    → Both s
    → Both (write_update p admin target s).1
unfolding write_update loses_admin
write_update-HasAdmin p admin target s m safe h =
    let d = update_user_row target.id (apply_update p) s.db in
    let w : HasAdmin d =
      unfold apply_update in update-HasAdmin (apply_update p) s.db target (λ u. refl) m safe h.1 in
    (Keeps-bind _ _ Keeps-commit λ _.
        Keeps-bind _ _
          (Keeps-log_changes admin.id target.id
            (role_changes p.role target ++ active_changes p.is_active target))
          λ _. Keeps-pure (apply_update p target)).at
      (record s { db = d }) (h.0, w)

update_target-HasAdmin :
    (p : UserUpdate) (admin target : User) (s : Session)
    → In target s.db.users
    → Both s
    → Both (update_target p admin target s).1
unfolding update_target
update_target-HasAdmin p admin target s m h =
    elim (Bool-cases (is_protected_from admin.id target.id)) [
      | inl e ↦ rw e h
      | inr e ↦ rw e (elim (Bool-cases (target.id == admin.id)) [
        | inl e' ↦ rw e' h
        | inr e' ↦
            rw e' (
              guarded (loses_admin p target && leb (count_where is_active_admin s.db.users) 1) refl)
      ])
    ]
  where
    guarded :
        (b : Bool)
        → (loses_admin p target && leb (count_where is_active_admin s.db.users) 1) ≡ b
        → Both ((raise_if b (http 400) >> write_update p admin target) s).1
    guarded true q = h
    guarded false q = write_update-HasAdmin p admin target s m q h

Keeps-update_known :
    (p : UserUpdate) (user_id : String) (admin : User)
    → Keeps HasAdmin (update_known p user_id admin)
unfolding update_known
Keeps-update_known p user_id admin = record {
  at = λ s h. found s h (find_where (user_by_id user_id) s.db.users) refl;
}
  where
    found :
        (s : Session)
        → Both s
        → (o : Option User) → find_where (user_by_id user_id) s.db.users ≡ o
        → Both ((or_raise o (http 404) >>= update_target p admin) s).1
    found s h none e = h
    found s h (some t) e =
        update_target-HasAdmin p admin t s (find-In (user_by_id user_id) s.db.users t e) h

pub Keeps-update_user :
    (p : UserUpdate) (user_id : String) (admin : User)
    → Keeps HasAdmin (update_user p user_id admin)
unfolding update_user
Keeps-update_user p user_id admin =
    Keeps-bind _ _ (Keeps-raise_if (is_none p.role && is_none p.is_active) (http 400)) λ _.
      Keeps-bind _ _ (Keeps-raise_if (bad_role p.role) (http 400))
        λ _. Keeps-update_known p user_id admin

-- Writing a password leaves the admins alone.
set_password-HasAdmin :
    (id hash : String) (d : Database)
    → HasAdmin d
    → HasAdmin (update_user_row id (set_password hash) d)
unfolding is_active_admin
set_password-HasAdmin id hash d h = record {
  ids =
      rw (map-update (λ (u : User). u.id) (user_by_id id) (set_password hash) d.users (λ u. refl))
        h.ids;
  admin =
      rw (count-update is_active_admin (user_by_id id) (set_password hash) d.users (λ u. refl))
        h.admin;
}

pub Keeps-change_my_password :
    (crypto : Crypto) (salt : ℕ) (current new : String) (user : User)
    → Keeps HasAdmin (change_my_password crypto salt current new user)
unfolding change_my_password
Keeps-change_my_password crypto salt current new user =
    Keeps-bind _ _ (Keeps-raise_if (not (crypto.checkpw current user.hashed_password)) (http 401))
      λ _. Keeps-bind _ _ (Keeps-raise_if (ltb (count new) min_password_length) (http 400)) λ _.
        Keeps-bind _ _ (Keeps-raise_if (new == current) (http 400)) λ _.
          Keeps-bind _ _
            (Keeps-execute (update_user_row user.id (set_password (crypto.hashpw salt new)))
              (set_password-HasAdmin user.id (crypto.hashpw salt new)))
            λ _.
              Keeps-bind _ _ Keeps-commit
                λ _. Keeps-log (some user.id) "change_password" "user" (("self", flag true) ∷ [])

pub Keeps-reset_user_password :
    (crypto : Crypto) (salt : ℕ) (password user_id : String) (admin : User)
    → Keeps HasAdmin (reset_user_password crypto salt password user_id admin)
unfolding reset_user_password reset_target
Keeps-reset_user_password crypto salt password user_id admin =
    Keeps-bind _ _ (Keeps-query (λ d. find_where (user_by_id user_id) d.users)) λ found.
      Keeps-bind _ _ (Keeps-or_raise found (http 404)) λ target.
        Keeps-bind _ _ (Keeps-raise_if (is_protected_from admin.id target.id) (http 403)) λ _.
          Keeps-bind _ _
            (Keeps-execute (update_user_row target.id (set_password (crypto.hashpw salt password)))
              (set_password-HasAdmin target.id (crypto.hashpw salt password)))
            λ _. Keeps-bind _ _ Keeps-commit λ _.
              Keeps-bind _ _
                (Keeps-log (some admin.id) "reset_password" "user"
                  (("target_user", str target.id) ∷ []))
                λ _. Keeps-pure password

add_user-HasAdmin :
    (u : User) (d : Database)
    → any_where (user_by_id u.id) d.users ≡ false
    → HasAdmin d
    → HasAdmin (add_user u d)
add_user-HasAdmin u d n h = record {
  ids = rw (map-append) (
      Distinct-snoc (map (λ (x : User). x.id) d.users) u.id h.ids λ m.
        let (x, i, e) = In_of_map (λ (y : User). y.id) u.id d.users m in
        let q = any_none (user_by_id u.id) d.users n x i in
        unfold user_by_id in ground (arith, eq_iff x.id u.id, e, q));
  admin = rw (count-append is_active_admin d.users (u ∷ [])) (omega (arith, h.admin));
}

write_user-HasAdmin :
    (admin u : User) (s : Session)
    → any_where (user_by_id u.id) s.db.users ≡ false
    → Both s
    → Both (write_user admin u s).1
unfolding write_user
write_user-HasAdmin admin u s fresh h =
    (Keeps-bind _ _ Keeps-commit λ _.
        Keeps-bind _ _
          (Keeps-log (some admin.id) "create" "user"
            (("new_user", str u.id) ∷ ("role", str u.role) ∷ []))
          λ _. Keeps-pure u).at
      (record s { db = add_user u s.db }) (h.0, add_user-HasAdmin u s.db fresh h.1)

Keeps-write_new : (admin u : User) → Keeps HasAdmin (write_new admin u)
unfolding write_new
Keeps-write_new admin u = record {
  at = λ s h. checked s h (any_where (user_by_id u.id) s.db.users) refl;
}
  where
    checked :
        (s : Session)
        → Both s
        → (b : Bool) → any_where (user_by_id u.id) s.db.users ≡ b
        → Both ((raise_if b integrity_error >> write_user admin u) s).1
    checked s h true e = h
    checked s h false e = write_user-HasAdmin admin u s e h

pub Keeps-create_user :
    (crypto : Crypto) (salt : ℕ) (p : UserCreate) (admin : User)
    → Keeps HasAdmin (create_user crypto salt p admin)
unfolding create_user
Keeps-create_user crypto salt p admin =
    Keeps-bind _ _ (Keeps-query (λ d. any_where (has_email p.email) d.users)) λ taken.
      Keeps-bind _ _ (Keeps-raise_if taken (http 409))
        λ _. Keeps-write_new admin (new_user crypto salt p)
