-- ===== src/Api/Homes/Leaving.antt =====
-- What remains of a home that is deleted.
use mdmfleetmanagement.Prelude.{
  sym, ◌∙◌, ◌==◌, String, Bool, true, false, Option, none, some, List, [], ◌∷◌, ◌≡◌, ◌≢◌, ap,
  eq_iff, ◌⊎◌, inl, inr, refl, arith, eq_sql, Bool-cases, Option-cases,
}
use mdmfleetmanagement.Prelude.Rows.{
  select_where, select-delete_other, find-delete_other, find_where, any_where, update_where,
  delete_where, find-delete,
}
use mdmfleetmanagement.Models.{Device, Home, HomeCommunity}
use mdmfleetmanagement.Session.{Session, ok, err, http, integrity_error}
use mdmfleetmanagement.Broadcasts.{has_home_id}
use mdmfleetmanagement.Api.Homes.{
  lives_in, moved_out, is_of_home, is_ack_of, remove_home, delete_home,
}

-- A device before and after: it has moved out of the home `h`, or is as it was.
abbrev pub HasLeft : String → Device → Device → Type 0
HasLeft h x y =
    ((x.home_id ≡ some h) × (y ≡ record x { home_id = none })) ⊎ ((x.home_id ≢ some h) × (y ≡ x))

abbrev pub HaveLeft : String → List Device → List Device → Type 0
HaveLeft h [] [] = Unit
HaveLeft h (x ∷ xs) (y ∷ ys) = HasLeft h x y × HaveLeft h xs ys
HaveLeft h _ _ = ⊥

lives_in_sound : (h : String) (o : Option String) → eq_sql o h ≡ true → o ≡ some h
lives_in_sound h none e = cc
lives_in_sound h (some k) e = ap some ((eq_iff k h).0 e)

lives_in_complete : (h : String) (o : Option String) → eq_sql o h ≡ false → o ≢ some h
lives_in_complete h none e = λ q. cc
lives_in_complete h (some k) e = λ q. let p : k ≡ h = cc in let t = (eq_iff k h).1 p in cc

have_left : (h : String) (xs : List Device) → HaveLeft h xs (update_where (lives_in h) moved_out xs)
unfolding lives_in
have_left h [] = tt
have_left h (x ∷ xs) = (
  elim (Bool-cases (eq_sql x.home_id h)) [
    | inl e ↦ rw e (inl (lives_in_sound h x.home_id e, refl))
    | inr e ↦ rw e (inr (lives_in_complete h x.home_id e, refl))
  ],
  have_left h xs,
)

none_deleted : {A : Type 0} (p : A → Bool) (xs : List A) → any_where p (delete_where p xs) ≡ false
none_deleted p [] = refl
none_deleted p (x ∷ xs) = ground (arith, none_deleted p xs)

-- The outcome of a deletion that is accepted, as another home sees it, too.
abbrev pub IsLeft : String → String → Session → Session → Type 0
IsLeft h other s s' =
    ((x : Home) × (find_where (has_home_id h) s.db.homes ≡ some x))
    × (any_where (is_ack_of h) s.db.broadcast_acks ≡ false)
    × (find_where (has_home_id h) s'.db.homes ≡ none)
    × (find_where (has_home_id other) s'.db.homes ≡ find_where (has_home_id other) s.db.homes)
    × HaveLeft h s.db.devices s'.db.devices
    × (any_where (is_of_home h) s'.db.home_community ≡ false)
    × (select_where (is_of_home other) s'.db.home_community
        ≡ select_where (is_of_home other) s.db.home_community)
    × (s'.db.broadcast_acks ≡ s.db.broadcast_acks)
    × (s'.committed ≡ s'.db)

not_both : (h other t : String) → (h == other) ≡ false → (t == h) ≡ true → (t == other) ≡ false
not_both h other t n e = elim (Bool-cases (t == other)) [
  | inr f ↦ f
  | inl f ↦
      (let p : h ≡ other = sym ((eq_iff t h).0 e) ∙ (eq_iff t other).0 f in
        let q = (eq_iff h other).1 p in cc)
]

other_home :
    (h other : String) (x : Home)
    → (h == other) ≡ false
    → has_home_id h x ≡ true
    → has_home_id other x ≡ false
unfolding has_home_id
other_home h other x n e = not_both h other x.home_id n e

other_assignment :
    (h other : String) (m : HomeCommunity)
    → (h == other) ≡ false
    → is_of_home h m ≡ true
    → is_of_home other m ≡ false
unfolding is_of_home
other_assignment h other m n e = not_both h other m.home_id n e

-- The deletion of a home that is there and of which no receipt is succeeds: the home is not found
-- afterwards and belongs to no community, its devices have no home and the others are as they were,
-- another home and its communities and all receipts are as they were, and this is stored. Else it
-- changes nothing: 404 where there is no such home, an IntegrityError where a receipt is of it.
pub delete_home_lem :
    (h other : String) (s : Session)
    → (h == other) ≡ false
    → let (r, s') = delete_home h s in
      ((r ≡ ok tt) × IsLeft h other s s')
      ⊎ ((s' ≡ s)
          × (((r ≡ err (http 404)) × (find_where (has_home_id h) s.db.homes ≡ none))
              ⊎ ((r ≡ err integrity_error) × (any_where (is_ack_of h) s.db.broadcast_acks ≡ true))))
unfolding delete_home remove_home
delete_home_lem h other s n = elim (Option-cases (find_where (has_home_id h) s.db.homes)) [
  | inl e ↦ inr (rw e (refl, inl (refl, refl)))
  | inr (x, e) ↦ (elim (Bool-cases (any_where (is_ack_of h) s.db.broadcast_acks)) [
    | inl a ↦ inr (rw (e, a) (refl, inr (refl, refl)))
    | inr a ↦ inl (
        rw (e, a)
          (
            refl,
            (
              (x, refl),
              refl,
              find-delete (has_home_id h) s.db.homes,
              find-delete_other (has_home_id h) (has_home_id other) s.db.homes
                  (λ y. other_home h other y n),
              have_left h s.db.devices,
              none_deleted (is_of_home h) s.db.home_community,
              select-delete_other (is_of_home h) (is_of_home other) s.db.home_community
                  (λ m. other_assignment h other m n),
              refl,
              refl,
            ),
          ))
  ])
]
