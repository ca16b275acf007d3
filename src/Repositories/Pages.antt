-- ===== src/Repositories/Pages.antt =====
-- The pages of a `BaseRepository`.
use mdmfleetmanagement.Prelude.{
  ℕ, zero, suc, ◌≤◌, ◌↔◌, String, true, false, Option, none, some, List, [], ◌∷◌, ◌≡◌, ◌⊎◌, inl,
  inr, refl, ap, take, drop, length, length-take, take-ge, All, All-take, All-In, All-of_In, In,
  arith, Bool-cases,
}
use mdmfleetmanagement.Prelude.Rows.{
  select_where, length-select, count-le-length, In-select, In_of_select, All-select,
}
use mdmfleetmanagement.Session.{Session, ok}
use mdmfleetmanagement.Repositories.Base.{Model, get_all, holds, passes}

-- What a database does for a query without ORDER BY: it gives the rows in some order.
pub record IsOrder {A : Type 0} (scan : List A → List A) : Type 0 where
  pub same : (x : A) (xs : List A) → In x (scan xs) ↔ In x xs
  pub as_many : (xs : List A) → length (scan xs) ≡ length xs

All-drop : {A : Type 0} (P : A → Type 0) (n : ℕ) (xs : List A) → All P xs → All P (drop n xs)
All-drop P zero xs h = h
All-drop P (suc n) [] h = tt
All-drop P (suc n) (x ∷ xs) h = All-drop P n xs h.1

module _ {Row Key Value : Type 0} (model : Model Row Key Value) where
  -- The row has the value of each filter, but for filters without a value and unknown fields.
  abbrev pub Satisfies : List (String × Option Value) → Row → Type 0
  Satisfies [] x = Unit
  Satisfies ((k, none) ∷ filters) x = Satisfies filters x
  Satisfies ((k, some v) ∷ filters) x =
      ((model.hasattr k ≡ false) ⊎ (model.eq (model.getattr k x) v ≡ true)) × Satisfies filters x

  passes_sound :
      (filters : List (String × Option Value)) (x : Row)
      → passes model filters x ≡ true
      → Satisfies filters x
  unfolding passes holds
  passes_sound [] x h = tt
  passes_sound ((k, none) ∷ filters) x h = passes_sound filters x h
  passes_sound ((k, some v) ∷ filters) x h = elim (Bool-cases (model.hasattr k)) [
    | inr e ↦ (let g = rw e at h in (inl e, passes_sound filters x g))
    | inl e ↦ (elim (Bool-cases (model.eq (model.getattr k x) v)) [
      | inl q ↦ (let g = rw (e, q) at h in (inr q, passes_sound filters x g))
      | inr q ↦ (let g = rw (e, q) at h in cc)
    ])
  ]

  passes_complete :
      (filters : List (String × Option Value)) (x : Row)
      → Satisfies filters x
      → passes model filters x ≡ true
  unfolding passes holds
  passes_complete [] x h = refl
  passes_complete ((k, none) ∷ filters) x h = passes_complete filters x h
  passes_complete ((k, some v) ∷ filters) x (inl e, t) = rw e (passes_complete filters x t)
  passes_complete ((k, some v) ∷ filters) x (inr q, t) = elim (Bool-cases (model.hasattr k)) [
    | inl e ↦ rw (e, q) (passes_complete filters x t)
    | inr e ↦ rw e (passes_complete filters x t)
  ]

  -- A page has no more rows than its limit, and each is a row of the table that has the value of
  -- each filter (filters without a value and unknown fields do not count), in whatever order the
  -- database gives them; the session is as it was.
  pub get_all_sound :
      (scan : List Row → List Row) (skip limit : ℕ) (filters : List (String × Option Value))
      (s : Session)
      → IsOrder scan
      → (xs : List Row) × (get_all model scan skip limit filters s ≡ (ok xs, s))
        × (length xs ≤ limit)
        × All (λ x. In x (model.rows s.db) × Satisfies filters x) xs
  unfolding get_all
  get_all_sound scan skip limit filters s order =
      let found = select_where (passes model filters) (model.rows s.db) in
      let all : All (λ x. In x (model.rows s.db) × Satisfies filters x) (scan found) =
        All-of_In (λ x. In x (model.rows s.db) × Satisfies filters x) (scan found)
          (λ x m.
            let i = (order.same x found).0 m in
            (
              In_of_select (passes model filters) x (model.rows s.db) i,
              passes_sound filters x (
                  All-In (λ y. passes model filters y ≡ true) found
                    (All-select (passes model filters) (model.rows s.db)) i),
            )) in
      let shorter = length-take limit (drop skip (scan found)) in
      (
        take limit (drop skip (scan found)),
        refl,
        ground (arith, shorter),
        All-take (λ x. In x (model.rows s.db) × Satisfies filters x) limit (drop skip (scan found))
            (All-drop (λ x. In x (model.rows s.db) × Satisfies filters x) skip (scan found) all),
      )

  -- The first page, of a limit that is not below the number of rows of the table, has exactly the
  -- rows that have the value of each filter.
  pub get_all_complete :
      (scan : List Row → List Row) (limit : ℕ) (filters : List (String × Option Value))
      (s : Session) (x : Row)
      → IsOrder scan
      → length (model.rows s.db) ≤ limit
      → (xs : List Row) × (get_all model scan 0 limit filters s ≡ (ok xs, s))
        × (In x xs ↔ (In x (model.rows s.db) × Satisfies filters x))
  unfolding get_all
  get_all_complete scan limit filters s x order enough =
      let p = passes model filters in
      let found = select_where p (model.rows s.db) in
      let n = length-select p (model.rows s.db) in
      let m = count-le-length p (model.rows s.db) in
      let fits : length (scan found) ≤ limit = omega (arith, order.as_many found, n, m, enough) in
      (
        scan found,
        ap (λ t. (ok t, s)) (take-ge limit (scan found) fits),
        (
          (λ i.
              let j = (order.same x found).0 i in
              (
                In_of_select p x (model.rows s.db) j,
                passes_sound filters x
                    (All-In (λ y. p y ≡ true) found (All-select p (model.rows s.db)) j),
              )),
          (λ (i, h).
              (order.same x found).1
                (In-select p x (model.rows s.db) i (passes_complete filters x h))),
        ),
      )
