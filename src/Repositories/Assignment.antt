-- ===== src/Repositories/Assignment.antt =====
-- Homes and communities: an assignment and its removal.
use mdmfleetmanagement.Prelude.{
  String, Bool, true, false, List, [], ◌∷◌, ◌++◌, ◌≡◌, ◌⊎◌, inl, inr, refl, ap, ◌&&◌, arith,
  Bool-cases, eq_refl,
}
use mdmfleetmanagement.Prelude.Rows.{any_where, delete_where}
use mdmfleetmanagement.Models.{HomeCommunity}
use mdmfleetmanagement.Session.{Session, ok, err, integrity_error}
use mdmfleetmanagement.Broadcasts.{has_home_id, has_community_id}
use mdmfleetmanagement.Repositories.Home.{
  is_assignment, assign_community, insert_assignment, remove_community,
}

delete-append :
    {A : Type 0} (p : A → Bool) (xs : List A) (y : A)
    → any_where p xs ≡ false
    → p y ≡ true
    → delete_where p (xs ++ y ∷ []) ≡ xs
delete-append p [] y n h = ground arith
delete-append p (x ∷ xs) y n h = ground (arith, delete-append p xs y)

any-append :
    {A : Type 0} (p : A → Bool) (xs : List A) (y : A)
    → p y ≡ true
    → any_where p (xs ++ y ∷ []) ≡ true
any-append p [] y h = ground arith
any-append p (x ∷ xs) y h = ground (arith, any-append p xs y)

abbrev pub assignment : String → String → HomeCommunity
assignment h c = record { home_id = h; community_id = c }

is_assignment_self : (h c : String) → is_assignment h c (assignment h c) ≡ true
unfolding is_assignment
is_assignment_self h c = rw (eq_refl h, eq_refl c) refl

abbrev pub both_known : String → String → Session → Bool
both_known h c s =
    any_where (has_home_id h) s.db.homes && any_where (has_community_id c) s.db.communities

-- An assignment of a home to a community that is accepted is stored, and its removal finds it and
-- leaves the tables as they were before it. One that is not accepted changes nothing: it answers
-- false where the home or the community is not known, and raises where the home is assigned to the
-- community already.
pub assign_then_remove :
    (h c : String) (s : Session)
    → let (r, s1) = assign_community h c s in
      let (r2, s2) = remove_community h c s1 in
      ((r ≡ ok true)
        × (any_where (is_assignment h c) s1.committed.home_community ≡ true)
        × (r2 ≡ ok true)
        × (s2 ≡ record s { committed = s.db }))
      ⊎ ((s1 ≡ s)
          × (((r ≡ ok false) × (both_known h c s ≡ false))
              ⊎ ((r ≡ err integrity_error)
                  × (any_where (is_assignment h c) s.db.home_community ≡ true))))
unfolding assign_community insert_assignment remove_community
assign_then_remove h c s = elim (Bool-cases (both_known h c s)) [
  | inr k ↦ inr (rw k (refl, inl (refl, refl)))
  | inl k ↦ (elim (Bool-cases (any_where (is_assignment h c) s.db.home_community)) [
    | inl a ↦ inr (rw (k, a) (refl, inr (refl, refl)))
    | inr a ↦
        (let found =
            any-append (is_assignment h c) s.db.home_community (assignment h c)
              (is_assignment_self h c) in
          let same =
            delete-append (is_assignment h c) s.db.home_community (assignment h c) a
              (is_assignment_self h c) in
          inl (
            rw (k, a)
              (
                refl,
                found,
                ap ok found,
                ap
                    (λ t.
                      let d = record s.db { home_community = t } in
                      record s { db = d; committed = d })
                    same,
              )))
  ])
]
