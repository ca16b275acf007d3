-- ===== src/Repositories/Base.antt =====
-- repositories/base.py, BaseRepository, over the mapped class of any table. What SQLAlchemy and the
-- database do for a class is in `Model`: the columns of an instance, the rows that refer to a
-- deleted instance, the constraints that the database tests when the session writes.
use mdmfleetmanagement.Prelude.{
  ℕ, String, Bool, true, false, Option, none, some, List, [], ◌∷◌, ◌++◌, if◌then◌else◌, take, drop,
}
use mdmfleetmanagement.Prelude.Rows.{
  find_where, any_where, select_where, update_where, delete_where,
}
use mdmfleetmanagement.Models.{Database}
use mdmfleetmanagement.Session.{
  Action, integrity_error, pure, raise_if, query, execute, commit, ◌>>=◌, ◌>>◌,
}

pub record Model (Row Key Value : Type 0) : Type 0 where
  pub rows : Database → List Row
  pub with_rows : List Row → Database → Database
  pub has_key : Key → Row → Bool
  pub key_of : Row → Key
  pub hasattr : String → Bool
  pub getattr : String → Row → Value
  pub setattr : String → Value → Row → Row
  pub eq : Value → Value → Bool
  -- what the session writes to other tables when the instance of a key is deleted
  pub release : Key → Database → Database
  -- a constraint does not hold: a value is missing or taken, or a referenced row is not there
  pub violates : Database → Bool

module _ {Row Key Value : Type 0} (model : Model Row Key Value) where
  unfoldable pub get_by_id : Key → Action (Option Row)
  get_by_id pk = query (λ d. find_where (model.has_key pk) (model.rows d))

  -- One filter: it counts if it has a value and the class has the field.
  unfoldable pub holds : String → Option Value → Row → Bool
  holds field none x = true
  holds field (some v) x = if model.hasattr field then model.eq (model.getattr field x) v else true

  unfoldable pub passes : List (String × Option Value) → Row → Bool
  passes [] x = true
  passes ((field, value) ∷ filters) x =
      let rest = passes filters x in if holds field value x then rest else false

  -- There is no ORDER BY: `scan` is the order that the database takes.
  unfoldable pub get_all :
      (List Row → List Row) → ℕ → ℕ → List (String × Option Value) → Action (List Row)
  get_all scan skip limit filters =
      query (λ d. take limit (drop skip (scan (select_where (passes filters) (model.rows d)))))

  -- The flush and the commit of a write; a write that the database refuses is rolled back.
  unfoldable pub save : (Database → Database) → Action (Unit {0})
  save write = do
    raise_if (← query (λ d. model.violates (write d))) integrity_error
    execute write
    commit

  unfoldable pub insert : Row → Database → Database
  insert x d = model.with_rows (model.rows d ++ x ∷ []) d

  unfoldable pub create : Row → Action Row
  create x = do
    raise_if (← query (λ d. any_where (model.has_key (model.key_of x)) (model.rows d)))
        integrity_error
    save (insert x)
    pure x

  -- for field, value in data.items(): setattr(instance, field, value)
  unfoldable pub setattrs : List (String × Value) → Row → Row
  setattrs [] x = x
  setattrs ((field, value) ∷ changes) x = setattrs changes (model.setattr field value x)

  unfoldable pub write_row : Key → List (String × Value) → Database → Database
  write_row pk changes d =
      model.with_rows (update_where (model.has_key pk) (setattrs changes) (model.rows d)) d

  unfoldable pub update_found : Key → List (String × Value) → Option Row → Action (Option Row)
  update_found pk changes none = pure none
  update_found pk changes (some x) = do
    save (write_row pk changes)
    pure (some (setattrs changes x))

  unfoldable pub update : Key → List (String × Value) → Action (Option Row)
  update pk changes = do found ← get_by_id pk; update_found pk changes found

  unfoldable pub remove_row : Key → Database → Database
  remove_row pk d =
      model.with_rows (delete_where (model.has_key pk) (model.rows d)) (model.release pk d)

  unfoldable pub delete_found : Key → Option Row → Action Bool
  delete_found pk none = pure false
  delete_found pk (some x) = do save (remove_row pk); pure true

  unfoldable pub delete : Key → Action Bool
  delete pk = do found ← get_by_id pk; delete_found pk found
