-- ===== src/DeviceGroups/Deletion.antt =====
-- What remains of a device group that is deleted.
use mdmfleetmanagement.Prelude.{
  some, none, ℕ, String, true, false, Option, [], ◌≡◌, ◌⊎◌, inl, inr, refl, map, ap, eqb, arith,
  Option-cases,
}
use mdmfleetmanagement.Prelude.Rows.{
  select-delete, select-delete_other, find-delete_other, find_where, find-delete,
}
use mdmfleetmanagement.Models.{DeviceGroup, DeviceGroupMember}
use mdmfleetmanagement.Session.{Session, ok, err, http}
use mdmfleetmanagement.Audit.{log, add_entry}
use mdmfleetmanagement.DeviceGroups.Membership.{not_both}
use mdmfleetmanagement.DeviceGroups.Members.{
  in_group, members, has_group_id, find_group, get_group, delete_group,
}

other_group :
    (id other : ℕ) (g : DeviceGroup)
    → eqb id other ≡ false
    → has_group_id id g ≡ true
    → has_group_id other g ≡ false
unfolding has_group_id
other_group id other g o h = ground arith

-- The deletion of a group that is there succeeds: the group answers 404 afterwards and has no
-- members, another group and its members are as they were, and this is stored. Where there is no
-- such group, and only there, the answer is 404 and nothing changes.
pub delete_group_lem :
    (id other : ℕ) (user_id : Option String) (s : Session)
    → eqb id other ≡ false
    → let (r, s') = delete_group id user_id s in
      ((r ≡ ok tt)
        × ((g : DeviceGroup) × (find_where (has_group_id id) s.db.device_groups ≡ some g))
        × (get_group id s' ≡ (err (http 404), s'))
        × (members id s'.db ≡ [])
        × (find_where (has_group_id other) s'.db.device_groups
            ≡ find_where (has_group_id other) s.db.device_groups)
        × (members other s'.db ≡ members other s.db)
        × (s'.committed ≡ s'.db))
      ⊎ ((r ≡ err (http 404)) × (find_where (has_group_id id) s.db.device_groups ≡ none) × (s' ≡ s))
unfolding delete_group find_group get_group members log add_entry
delete_group_lem id other user_id s o =
    elim (Option-cases (find_where (has_group_id id) s.db.device_groups)) [
      | inl e ↦ inr (rw e (refl, refl, refl))
      | inr (g, e) ↦
          (let gone = find-delete (has_group_id id) s.db.device_groups in
            inl (
              rw e (
                refl,
                (g, refl),
                (rw gone refl),
                ap (map (λ (m : DeviceGroupMember). m.device_id))
                    (select-delete (in_group id) s.db.device_group_members),
                find-delete_other (has_group_id id) (has_group_id other) s.db.device_groups
                    (λ x. other_group id other x o),
                ap (map (λ (m : DeviceGroupMember). m.device_id)) (
                    select-delete_other (in_group id) (in_group other) s.db.device_group_members
                      (λ m. not_both id other m o)),
                refl,
              )))
    ]
