-- ===== src/Examples/Repository.antt =====
-- The repository of communities on the small fleet.
use mdmfleetmanagement.Prelude.{
  ◌≤◌, String, Bool, true, false, not, Option, none, some, List, [], ◌∷◌, ◌≡◌, ◌⊎◌, ◌↔◌, inl, inr,
  refl, sym, ◌∙◌, length, ◌==◌, eq_iff, if◌then◌else◌, All, In, arith, Bool-cases,
}
use mdmfleetmanagement.Prelude.Rows.{find_where, any_where, delete_where}
use mdmfleetmanagement.Models.{Community}
use mdmfleetmanagement.Session.{ok, err, integrity_error}
use mdmfleetmanagement.Broadcasts.{has_community_id}
use mdmfleetmanagement.Repositories.Base.{Model, create, insert, delete, remove_row, get_all}
use mdmfleetmanagement.Repositories.Crud.{IsTable, other_rows, create_then_get, delete_then_get}
use mdmfleetmanagement.Repositories.Pages.{IsOrder, Satisfies, get_all_sound, get_all_complete}
use mdmfleetmanagement.Examples.Fleet.{session}

abbrev same_text : Option String → Option String → Bool
same_text none none = true
same_text (some a) (some b) = a == b
same_text _ _ = false

-- Of the columns only the description; the assignments of homes go with a community, and a
-- broadcast refers to a community.
abbrev communities : Model Community String (Option String)
communities = record {
  rows = λ d. d.communities;
  with_rows = λ xs d. record d { communities = xs };
  has_key = has_community_id;
  key_of = λ x. x.community_id;
  hasattr = λ k. k == "description";
  getattr = λ k x. x.description;
  setattr = λ k v x. if k == "description" then record x { description = v } else x;
  eq = same_text;
  release =
      λ c d. record d { home_community = delete_where (λ m. m.community_id == c) d.home_community };
  violates = λ d.
      any_where (λ b. not (any_where (has_community_id b.community_id) d.communities)) d.broadcasts;
}

kept_description :
    (k f : String) (v : Option String) (x : Community)
    → (k == "description") ≡ true
    → (k == f) ≡ false
    → (if f == "description" then record x { description = v } else x).description ≡ x.description
kept_description k f v x h n = elim (Bool-cases (f == "description")) [
  | inr e ↦ rw e refl
  | inl e ↦
      (let p : k ≡ f = (eq_iff k "description").0 h ∙ sym ((eq_iff f "description").0 e) in
        let q = (eq_iff k f).1 p in cc)
]

communities-IsTable : IsTable communities
communities-IsTable = record {
  rows_with = λ xs d. refl;
  get_set = λ k v x h. rw h refl;
  get_other = kept_description;
}

abbrev south : Community
south = record { community_id = "c2"; name = "South"; description = none }

create_then_get_example :
    let (r, s) = create communities south session in
    let pk : String = "c2" in
    ((r ≡ ok south)
      × (any_where (communities.has_key pk) session.db.communities ≡ false)
      × (communities.violates s.db ≡ false)
      × (find_where (communities.has_key pk) s.db.communities ≡ some south)
      × (other_rows communities pk s.db ≡ other_rows communities pk session.db)
      × (s.committed ≡ s.db))
    ⊎ ((s ≡ session)
        × (r ≡ err integrity_error)
        × ((any_where (communities.has_key pk) session.db.communities ≡ true)
            ⊎ (communities.violates (insert communities south session.db) ≡ true)))
unfolding has_community_id
create_then_get_example = create_then_get communities communities-IsTable south session refl

abbrev described : List (String × Option String)
described = ("description", some "The north") ∷ []

delete_then_get_example :
    let (r, s) = delete communities "c1" session in
    ((r ≡ ok true)
      × ((x : Community) × (find_where (has_community_id "c1") session.db.communities ≡ some x))
      × (communities.violates s.db ≡ false)
      × (find_where (has_community_id "c1") s.db.communities ≡ none)
      × (other_rows communities "c1" s.db ≡ other_rows communities "c1" session.db)
      × (s.committed ≡ s.db))
    ⊎ ((s ≡ session)
        × (((r ≡ ok false) × (find_where (has_community_id "c1") session.db.communities ≡ none))
            ⊎ ((r ≡ err integrity_error)
                × (communities.violates (remove_row communities "c1" session.db) ≡ true))))
delete_then_get_example = delete_then_get communities communities-IsTable "c1" session

abbrev filters : List (String × Option (Option String))
filters = ("description", some none) ∷ ("created_at", some none) ∷ []

scan-IsOrder : IsOrder {A = Community} (λ xs. xs)
scan-IsOrder = record { same = λ x xs. ((λ m. m), (λ m. m)); as_many = λ xs. refl }

get_all_sound_example :
    (xs : List Community) × (get_all communities (λ ys. ys) 0 50 filters session ≡ (ok xs, session))
    × (length xs ≤ 50)
    × All (λ x. In x session.db.communities × Satisfies communities filters x) xs
get_all_sound_example = get_all_sound communities (λ ys. ys) 0 50 filters session scan-IsOrder

get_all_complete_example :
    (xs : List Community) × (get_all communities (λ ys. ys) 0 50 filters session ≡ (ok xs, session))
    × (In south xs ↔ (In south session.db.communities × Satisfies communities filters south))
get_all_complete_example =
    get_all_complete communities (λ ys. ys) 50 filters session south scan-IsOrder (omega arith)
