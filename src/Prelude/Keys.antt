-- ===== src/Prelude/Keys.antt =====
-- Keys of rows: distinct values of a column, and where the rows of a changed table come from.
use mathlib.Core.Path.{◌≡◌, refl, sym, ap, ◌∙◌, subst}
use mathlib.Core.Logic.{◌⊎◌, inl, inr}
use mathlib.Core.Bool.{Bool, true, false}
use mathlib.Core.List.{List, [], ◌∷◌, ◌++◌, map}
use native.Mathlib.Omega.{arith}
use mdmfleetmanagement.Prelude.Tests.{if◌then◌else◌, Bool-cases}
use mdmfleetmanagement.Prelude.Lists.{In}
use mdmfleetmanagement.Prelude.Rows.{update_where, any_where}

abbrev pub Distinct : {A : Type 0} → List A → Type 0
Distinct [] = Unit
Distinct (x ∷ xs) = ¬ (In x xs) × Distinct xs

module _ {A : Type 0} where
  pub In_of_append : (a : A) (xs ys : List A) → In a (xs ++ ys) → In a xs ⊎ In a ys
  In_of_append a [] ys m = inr m
  In_of_append a (x ∷ xs) ys (inl e) = inl (inl e)
  In_of_append a (x ∷ xs) ys (inr m) = elim (In_of_append a xs ys m) [
    | inl l ↦ inl (inr l)
    | inr r ↦ inr r
  ]

  pub Distinct-snoc : (xs : List A) (a : A) → Distinct xs → ¬ (In a xs) → Distinct (xs ++ a ∷ [])
  Distinct-snoc [] a d n = ((λ m. absurd m), tt)
  Distinct-snoc (x ∷ xs) a d n = (
    (λ m. elim (In_of_append x xs (a ∷ []) m) [
      | inl l ↦ d.0 l
      | inr r ↦ elim r [ inl e ↦ n (inl (sym e)) | inr f ↦ absurd f ]
    ]),
    Distinct-snoc xs a d.1 (λ m. n (inr m)),
  )

  -- A row of an updated table is a row of the table before, updated if it passed the test.
  pub In_of_update :
      (p : A → Bool) (f : A → A) (xs : List A) (y : A)
      → In y (update_where p f xs)
      → (x : A) × In x xs × (y ≡ (if p x then f x else x))
  In_of_update p f [] y m = absurd m
  In_of_update p f (x ∷ xs) y (inl e) = (x, inl refl, e)
  In_of_update p f (x ∷ xs) y (inr m) = let (z, i, e) = In_of_update p f xs y m in (z, inr i, e)

  pub In-update :
      (p : A → Bool) (f : A → A) (xs : List A) (x : A)
      → In x xs
      → In (if p x then f x else x) (update_where p f xs)
  In-update p f [] x m = absurd m
  In-update p f (y ∷ ys) x (inl e) = inl (ap (λ z. if p z then f z else z) e)
  In-update p f (y ∷ ys) x (inr m) = inr (In-update p f ys x m)

  pub any-In :
      (p : A → Bool) (xs : List A) → any_where p xs ≡ true → (x : A) × In x xs × (p x ≡ true)
  any-In p [] h = cc
  any-In p (x ∷ xs) h = elim (Bool-cases (p x)) [
    | inl e ↦ (x, inl refl, e)
    | inr e ↦ (let (y, m, q) = any-In p xs (ground arith) in (y, inr m, q))
  ]

  pub any_none :
      (p : A → Bool) (xs : List A) → any_where p xs ≡ false → (x : A) → In x xs → p x ≡ false
  any_none p [] h x m = absurd m
  any_none p (y ∷ ys) h x (inl e) = rw e (ground arith)
  any_none p (y ∷ ys) h x (inr m) = any_none p ys (ground arith) x m

module _ {A B : Type 0} (key : A → B) where
  pub In-map : (x : A) (xs : List A) → In x xs → In (key x) (map key xs)
  In-map x [] m = m
  In-map x (y ∷ ys) (inl e) = inl (ap key e)
  In-map x (y ∷ ys) (inr m) = inr (In-map x ys m)

  pub In_of_map : (k : B) (xs : List A) → In k (map key xs) → (x : A) × In x xs × (k ≡ key x)
  In_of_map k [] m = absurd m
  In_of_map k (y ∷ ys) (inl e) = (y, inl refl, e)
  In_of_map k (y ∷ ys) (inr m) = let (x, i, e) = In_of_map k ys m in (x, inr i, e)

  -- Two rows of one key are the same row.
  pub row_unique :
      (xs : List A) (x y : A) → Distinct (map key xs) → In x xs → In y xs → key x ≡ key y → x ≡ y
  row_unique [] x y d m n e = absurd m
  row_unique (z ∷ zs) x y d (inl p) (inl q) e = p ∙ sym q
  row_unique (z ∷ zs) x y d (inl p) (inr n) e =
      absurd (d.0 (subst (λ k. In k (map key zs)) (sym e ∙ ap key p) (In-map y zs n)))
  row_unique (z ∷ zs) x y d (inr m) (inl q) e =
      absurd (d.0 (subst (λ k. In k (map key zs)) (e ∙ ap key q) (In-map x zs m)))
  row_unique (z ∷ zs) x y d (inr m) (inr n) e = row_unique zs x y d.1 m n e
