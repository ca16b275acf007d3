-- ===== src/DeviceGroups/Membership.antt =====
-- The membership of a group after an update.
use mathlib.Core.Path.{subst}
use mdmfleetmanagement.Prelude.{
  ℕ, String, Bool, true, false, Option, some, List, [], ◌∷◌, ◌++◌, map, ◌≡◌, ◌↔◌, inl, inr, refl,
  sym, ap, ◌∙◌, eqb, In, arith, Bool-cases, Option-cases,
}
use mdmfleetmanagement.Prelude.Rows.{select_where, delete_where, update_where, find_where}
use mdmfleetmanagement.Prelude.Keys.{Distinct}
use mdmfleetmanagement.Prelude.Sets.{to_set, to_set_iff, to_set-Distinct}
use mdmfleetmanagement.Models.{Database, DeviceGroupMember}
use mdmfleetmanagement.Session.{Session, ok, err, http, integrity_error}
use mdmfleetmanagement.Audit.{log, add_entry}
use mdmfleetmanagement.DeviceGroups.Members.{
  DeviceGroupUpdate, DeviceGroupResponse, in_group, members, member_rows, all_devices,
  insert_members, replace_members, update_group, find_group, get_group, has_group_id, name_taken,
  edit,
}

eqb_refl : (n : ℕ) → eqb n n ≡ true
eqb_refl n = ground arith

select_members :
    (id : ℕ) (ids : List String)
    → map (λ (m : DeviceGroupMember). m.device_id) (select_where (in_group id) (member_rows id ids))
      ≡ ids
unfolding in_group
select_members id [] = refl
select_members id (i ∷ ids) = rw (eqb_refl id) (ap (λ t. i ∷ t) (select_members id ids))

select_deleted :
    (p : DeviceGroupMember → Bool) (rows new : List DeviceGroupMember)
    → select_where p (delete_where p rows ++ new) ≡ select_where p new
select_deleted p [] new = refl
select_deleted p (x ∷ xs) new = ground (arith, select_deleted p xs new)

members_of_other :
    (id other : ℕ) (ids : List String)
    → eqb id other ≡ false
    → select_where (in_group other) (member_rows id ids) ≡ []
unfolding in_group
members_of_other id other [] h = refl
members_of_other id other (i ∷ ids) h = rw h (members_of_other id other ids h)

-- A membership row is of one group.
pub not_both :
    (id other : ℕ) (m : DeviceGroupMember)
    → eqb id other ≡ false
    → in_group id m ≡ true
    → in_group other m ≡ false
unfolding in_group
not_both id other m h k = ground arith

-- The rows of other groups.
select_other :
    (p q : DeviceGroupMember → Bool) (rows new : List DeviceGroupMember)
    → ((m : DeviceGroupMember) → p m ≡ true → q m ≡ false)
    → select_where q new ≡ []
    → select_where q (delete_where p rows ++ new) ≡ select_where q rows
select_other p q [] new k h = h
select_other p q (x ∷ xs) new k h = ground (arith, select_other p q xs new k h, k x)

-- What an update with a list of devices leaves: the group has exactly these members, each once.
pub record IsMembership (id other : ℕ) (ids : List String) (d d' : Database) : Type 0 where
  pub same : (i : String) → In i (members id d') ↔ In i ids
  pub once : Distinct (members id d')
  pub others : members other d' ≡ members other d

-- The membership after the rows of the new list took the place of the old rows.
replaced :
    (id other : ℕ) (ids : List String) (d d' : Database)
    → eqb id other ≡ false
    → d'.device_group_members
      ≡ delete_where (in_group id) d.device_group_members ++ member_rows id (to_set ids)
    → IsMembership id other ids d d'
unfolding members
replaced id other ids d d' o e =
    let rows = d.device_group_members in
    let new = member_rows id (to_set ids) in
    let q : members id d' ≡ to_set ids =
      ap (λ t. map (λ (m : DeviceGroupMember). m.device_id) (select_where (in_group id) t)) e
      ∙ ap (map (λ (m : DeviceGroupMember). m.device_id)) (select_deleted (in_group id) rows new)
      ∙ select_members id (to_set ids) in
    record {
      same = λ i. subst (λ t. In i t ↔ In i ids) (sym q) (to_set_iff i ids);
      once = subst Distinct (sym q) (to_set-Distinct ids);
      others =
          ap (λ t. map (λ (m : DeviceGroupMember). m.device_id) (select_where (in_group other) t)) e
          ∙ ap (map (λ (m : DeviceGroupMember). m.device_id)) (
              select_other (in_group id) (in_group other) rows new (λ m k. not_both id other m o k)
                (members_of_other id other (to_set ids) o));
    }

abbrev pub naming : Option String → Option String → List String → DeviceGroupUpdate
naming name description ids = record {
  name = name;
  description = description;
  device_ids = some ids;
}

-- An update of a group that succeeds and names devices leaves exactly these as the group's members,
-- each once, in what is stored; the members of any other group are what they were.
pub update_group_lem :
    (id other : ℕ) (name description : Option String) (ids : List String) (user_id : Option String)
    (r : DeviceGroupResponse) (s s' : Session)
    → eqb id other ≡ false
    → update_group id (naming name description ids) user_id s ≡ (ok r, s')
    → IsMembership id other ids s.db s'.committed
unfolding update_group find_group get_group replace_members insert_members log add_entry
update_group_lem id other name description ids user_id r s s' o h =
    let p = naming name description ids in
    elim (Option-cases (find_where (has_group_id id) s.db.device_groups)) [
      | inl e ↦ (let g = rw e at h in let q : err (http 404) ≡ ok r = ap (λ z. z.0) g in cc)
      | inr (x, e) ↦ elim (Bool-cases (name_taken id name s.db)) [
        | inl n ↦
            (let g = rw (e, n) at h in let q : err integrity_error ≡ ok r = ap (λ z. z.0) g in cc)
        | inr n ↦
            (let g = rw (e, n) at h in
              elim (Bool-cases (
                all_devices (to_set ids) (record s.db {
                  device_groups = update_where (has_group_id id) (edit p) s.db.device_groups;
                  device_group_members = delete_where (in_group id) s.db.device_group_members;
                }))) [
                  | inr k ↦
                      (let f = rw k at g in
                        let q : err integrity_error ≡ ok r = ap (λ z. z.0) f in cc)
                  | inl k ↦
                      (let f = rw k at g in
                        elim (Option-cases (
                          find_where (has_group_id id)
                            (update_where (has_group_id id) (edit p) s.db.device_groups))) [
                              | inl m ↦
                                  (let t = rw m at f in
                                    let q : err (http 404) ≡ ok r = ap (λ z. z.0) t in cc)
                              | inr (y, m) ↦
                                  (let t = rw m at f in
                                    replaced id other ids s.db s'.committed o
                                      (sym (ap (λ z. z.1.committed.device_group_members) t)))
                            ])
                ])
      ]
    ]
