-- ===== src/Repositories/Values.antt =====
-- The distinct values of a column.
use mdmfleetmanagement.Prelude.{
  String, true, not, Option, none, some, List, [], ◌∷◌, ◌≡◌, ◌≢◌, ◌↔◌, inl, inr, refl, ap, ◌==◌, In,
  All-In, Bool-cases, eq_iff, sym, ◌∙◌,
}
use mdmfleetmanagement.Prelude.Rows.{select_where, In-select, In_of_select, All-select}
use mdmfleetmanagement.Prelude.Keys.{Distinct}
use mdmfleetmanagement.Prelude.Sets.{to_set, to_set_iff, to_set-Distinct, select-Distinct}
use mdmfleetmanagement.Models.{Device}
use mdmfleetmanagement.Repositories.Device.{or_skip, values_of, distinct_of}

-- Some device has this value in the column.
abbrev pub Occurs : (Device → Option String) → String → List Device → Type 0
Occurs column v rows = (x : Device) × (In x rows) × (column x ≡ some v)

values_sound :
    (column : Device → Option String) (v : String) (rows : List Device)
    → In v (values_of column rows)
    → Occurs column v rows
unfolding values_of
values_sound column v [] m = absurd m
values_sound column v (x ∷ xs) m = go (column x) refl (values_sound column v xs) m
  where
    later : Occurs column v xs → Occurs column v (x ∷ xs)
    later (y, i, e) = (y, inr i, e)

    go :
        (o : Option String)
        → column x ≡ o
        → (In v (values_of column xs) → Occurs column v xs)
        → In v (or_skip o (values_of column xs))
        → Occurs column v (x ∷ xs)
    go none e k n = later (k n)
    go (some w) e k (inl p) = (x, inl refl, e ∙ ap some (sym p))
    go (some w) e k (inr n) = later (k n)

values_complete :
    (column : Device → Option String) (v : String) (rows : List Device) (x : Device)
    → In x rows
    → column x ≡ some v
    → In v (values_of column rows)
unfolding values_of
values_complete column v [] x m e = absurd m
values_complete column v (y ∷ ys) x (inl p) e = rw (ap column (sym p) ∙ e) (inl refl)
values_complete column v (y ∷ ys) x (inr m) e = go (column y) (values_complete column v ys x m e)
  where
    go : (o : Option String) → In v (values_of column ys) → In v (or_skip o (values_of column ys))
    go none n = n
    go (some w) n = inr n

-- Where ORDER BY keeps the values, each once: the values listed for a column are those that some
-- device has in it, the empty text left out, and each is listed once.
pub distinct_of_lem :
    (order_by : List String → List String) (column : Device → Option String) (rows : List Device)
    (v : String)
    → ((u : String) (us : List String) → In u (order_by us) ↔ In u us)
    → ((us : List String) → Distinct us → Distinct (order_by us))
    → (In v (distinct_of order_by column rows) ↔ ((v ≢ "") × Occurs column v rows))
      × Distinct (distinct_of order_by column rows)
unfolding distinct_of
distinct_of_lem order_by column rows v same once =
    let vs = values_of column rows in
    let kept = λ (u : String). not (u == "") in
    let sorted = order_by (to_set vs) in
    (
      (
        (λ m.
            let i = (to_set_iff v vs).0 ((same v (to_set vs)).0 (In_of_select kept v sorted m)) in
            (nonempty v sorted m, values_sound column v rows i)),
        (λ (n, (x, i, e)).
            let m =
              (same v (to_set vs)).1 ((to_set_iff v vs).1 (values_complete column v rows x i e)) in
            In-select kept v sorted m (is_kept v n)),
      ),
      select-Distinct kept sorted (once (to_set vs) (to_set-Distinct vs)),
    )
  where
    nonempty :
        (v : String) (us : List String) → In v (select_where (λ u. not (u == "")) us) → v ≢ ""
    nonempty v us m e =
        let t = All-In (λ u. not (u == "") ≡ true) _ (All-select (λ u. not (u == "")) us) m in
        let q = (eq_iff v "").1 e in cc

    is_kept : (v : String) → v ≢ "" → not (v == "") ≡ true
    is_kept v n = elim (Bool-cases (v == "")) [
      | inl e ↦ absurd (n ((eq_iff v "").0 e))
      | inr e ↦ rw e refl
    ]
