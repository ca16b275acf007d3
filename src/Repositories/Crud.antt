-- ===== src/Repositories/Crud.antt =====
-- What the operations of a `BaseRepository` promise of the table of its model.
use mdmfleetmanagement.Prelude.{
  String, Bool, true, false, none, some, List, [], ◌∷◌, ◌++◌, ◌≡◌, ◌⊎◌, inl, inr, refl, ap, ◌∙◌,
  ◌==◌, if◌then◌else◌, arith, Bool-cases, Option-cases,
}
use mdmfleetmanagement.Prelude.Rows.{find_where, any_where, delete_where, find-append, find-delete}
use mdmfleetmanagement.Models.{Database}
use mdmfleetmanagement.Session.{Session, ok, err, integrity_error}
use mdmfleetmanagement.Repositories.Base.{
  Model, get_by_id, save, insert, create, remove_row, delete, delete_found,
}

-- What a mapped class of SQLAlchemy gives: its rows are those written last, and an attribute has
-- the value that it was set to last.
pub record IsTable {Row Key Value : Type 0} (model : Model Row Key Value) : Type 0 where
  pub rows_with : (xs : List Row) (d : Database) → model.rows (model.with_rows xs d) ≡ xs
  pub get_set :
      (k : String) (v : Value) (x : Row)
      → model.hasattr k ≡ true
      → model.getattr k (model.setattr k v x) ≡ v
  pub get_other :
      (k f : String) (v : Value) (x : Row)
      → model.hasattr k ≡ true
      → (k == f) ≡ false
      → model.getattr k (model.setattr f v x) ≡ model.getattr k x

-- The value that a list of assignments leaves in a field: that of its last one, if it has one.
abbrev pub last_value : {Value : Type 0} → String → List (String × Value) → Value → Value
last_value k [] old = old
last_value k ((f, v) ∷ changes) old = last_value k changes (if k == f then v else old)

module _ {A : Type 0} where
  select_rest :
      (p : A → Bool) (xs : List A) → delete_where p (delete_where p xs) ≡ delete_where p xs
  select_rest p [] = refl
  select_rest p (x ∷ xs) = ground (arith, select_rest p xs)

  select_appended :
      (p : A → Bool) (xs : List A) (y : A)
      → p y ≡ true
      → delete_where p (xs ++ y ∷ []) ≡ delete_where p xs
  select_appended p [] y h = ground (arith, h)
  select_appended p (x ∷ xs) y h = ground (arith, h, select_appended p xs y h)

module _ {Row Key Value : Type 0} (model : Model Row Key Value) where
  -- The rows of other keys.
  abbrev pub other_rows : Key → Database → List Row
  other_rows pk d = delete_where (model.has_key pk) (model.rows d)

module _ {Row Key Value : Type 0} (model : Model Row Key Value) (table : IsTable model) where
  -- For a mapped class (`IsTable`), a deletion of a key that has a row and that no constraint
  -- refuses returns true; afterwards the key has no row, the rows of other keys are as they were,
  -- and this is stored. Else nothing changes: the answer is false where the key has no row, and an
  -- IntegrityError where what the deletion would leave violates a constraint.
  pub delete_then_get :
      (pk : Key) (s : Session)
      → let (r, s') = delete model pk s in
        ((r ≡ ok true)
          × ((x : Row) × (find_where (model.has_key pk) (model.rows s.db) ≡ some x))
          × (model.violates s'.db ≡ false)
          × (find_where (model.has_key pk) (model.rows s'.db) ≡ none)
          × (other_rows model pk s'.db ≡ other_rows model pk s.db)
          × (s'.committed ≡ s'.db))
        ⊎ ((s' ≡ s)
            × (((r ≡ ok false) × (find_where (model.has_key pk) (model.rows s.db) ≡ none))
                ⊎ ((r ≡ err integrity_error) × (model.violates (remove_row model pk s.db) ≡ true))))
  unfolding delete delete_found get_by_id save
  delete_then_get pk s = elim (Option-cases (find_where (model.has_key pk) (model.rows s.db))) [
    | inl e ↦ inr (rw e (refl, inl (refl, refl)))
    | inr (x, e) ↦ (elim (Bool-cases (model.violates (remove_row model pk s.db))) [
      | inl v ↦ inr (rw (e, v) (refl, inr (refl, refl)))
      | inr v ↦
          (let left : model.rows (remove_row model pk s.db)
                ≡ delete_where (model.has_key pk) (model.rows s.db) =
              unfold remove_row in
              table.rows_with (delete_where (model.has_key pk) (model.rows s.db))
                (model.release pk s.db) in
            inl (
              rw (e, v)
                (
                  refl,
                  (x, refl),
                  v,
                  ap (find_where (model.has_key pk)) left
                      ∙ find-delete (model.has_key pk) (model.rows s.db),
                  ap (delete_where (model.has_key pk)) left
                      ∙ select_rest (model.has_key pk) (model.rows s.db),
                  refl,
                )))
    ])
  ]

  -- For a mapped class (`IsTable`), a row that passes the test of its own key is created, if no
  -- row has the key and no constraint refuses it: the key finds it afterwards, the rows of other
  -- keys are as they were, and this is stored. Else an IntegrityError is raised and nothing
  -- changes.
  pub create_then_get :
      (x : Row) (s : Session)
      → model.has_key (model.key_of x) x ≡ true
      → let (r, s') = create model x s in
        let pk = model.key_of x in
        ((r ≡ ok x)
          × (any_where (model.has_key pk) (model.rows s.db) ≡ false)
          × (model.violates s'.db ≡ false)
          × (find_where (model.has_key pk) (model.rows s'.db) ≡ some x)
          × (other_rows model pk s'.db ≡ other_rows model pk s.db)
          × (s'.committed ≡ s'.db))
        ⊎ ((s' ≡ s)
            × (r ≡ err integrity_error)
            × ((any_where (model.has_key pk) (model.rows s.db) ≡ true)
                ⊎ (model.violates (insert model x s.db) ≡ true)))
  unfolding create save
  create_then_get x s k =
      let pk = model.key_of x in
      let old = model.rows s.db in
      elim (Bool-cases (any_where (model.has_key pk) old)) [
        | inl a ↦ inr (rw a (refl, refl, inl refl))
        | inr a ↦ (elim (Bool-cases (model.violates (insert model x s.db))) [
          | inl v ↦ inr (rw (a, v) (refl, refl, inr refl))
          | inr v ↦
              (let new : model.rows (insert model x s.db) ≡ old ++ x ∷ [] =
                  unfold insert in table.rows_with (old ++ x ∷ []) s.db in
                inl (
                  rw (a, v)
                    (
                      refl,
                      refl,
                      v,
                      ap (find_where (model.has_key pk)) new
                          ∙ find-append (model.has_key pk) old x a k,
                      ap (delete_where (model.has_key pk)) new
                          ∙ select_appended (model.has_key pk) old x k,
                      refl,
                    )))
        ])
      ]
