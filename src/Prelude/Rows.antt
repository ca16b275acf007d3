-- ===== src/Prelude/Rows.antt =====
-- A table is the list of its rows, in the order in which a query without ORDER BY returns them.
-- The statements SELECT, UPDATE and DELETE with a WHERE clause, and what each does to the rows.
use Prim.Native.Nat.{ℕ, suc, ◌+◌, ◌≤◌}
use mathlib.Core.Path.{◌≡◌, refl, ap}
use mathlib.Core.Logic.{inl, inr}
use mathlib.Core.Bool.{Bool, true, false, not}
use mathlib.Core.List.{List, [], ◌∷◌, ◌++◌, map}
use mathlib.Core.Option.{Option, none, some}
use native.Mathlib.Omega.{arith}
use mdmfleetmanagement.Prelude.Tests.{if◌then◌else◌}
use mdmfleetmanagement.Prelude.Lists.{length, All, In}

module _ {ℓ} {A : Type ℓ} where
  -- SELECT … WHERE p
  abbrev pub select_where : (A → Bool) → List A → List A
  select_where p [] = []
  select_where p (x ∷ xs) = let rest = select_where p xs in if p x then x ∷ rest else rest

  -- UPDATE … SET f WHERE p
  abbrev pub update_where : (A → Bool) → (A → A) → List A → List A
  update_where p f [] = []
  update_where p f (x ∷ xs) = (if p x then f x else x) ∷ update_where p f xs

  -- DELETE … WHERE p
  abbrev pub delete_where : (A → Bool) → List A → List A
  delete_where p xs = select_where (λ x. not (p x)) xs

  -- The first row of SELECT … WHERE p.
  abbrev pub find_where : (A → Bool) → List A → Option A
  find_where p [] = none
  find_where p (x ∷ xs) = let rest = find_where p xs in if p x then some x else rest

  -- SELECT count(*) … WHERE p
  abbrev pub count_where : (A → Bool) → List A → ℕ
  count_where p [] = 0
  count_where p (x ∷ xs) = (if p x then 1 else 0) + count_where p xs

  -- EXISTS (SELECT … WHERE p)
  abbrev pub any_where : (A → Bool) → List A → Bool
  any_where p [] = false
  any_where p (x ∷ xs) = let rest = any_where p xs in if p x then true else rest

  pub count-le-length : (p : A → Bool) (xs : List A) → count_where p xs ≤ length xs
  count-le-length p [] = omega arith
  count-le-length p (x ∷ xs) = ground (arith, count-le-length p xs)

  pub length-select : (p : A → Bool) (xs : List A) → length (select_where p xs) ≡ count_where p xs
  length-select p [] = refl
  length-select p (x ∷ xs) = ground (arith, length-select p xs)

  pub length-update :
      (p : A → Bool) (f : A → A) (xs : List A) → length (update_where p f xs) ≡ length xs
  length-update p f [] = refl
  length-update p f (x ∷ xs) = ap suc (length-update p f xs)

  -- Every selected row passes the test.
  pub All-select : (p : A → Bool) (xs : List A) → All (λ x. p x ≡ true) (select_where p xs)
  All-select p [] = tt
  All-select p (x ∷ xs) = ground (arith, All-select p xs)

  pub All-if {κ} :
      (P : A → Type κ) (b : Bool) (x : A) (xs : List A)
      → P x
      → All P xs
      → All P (if b then x ∷ xs else xs)
  All-if P true x xs h t = (h, t)
  All-if P false x xs h t = t

  pub All-select_of_All {κ} :
      (P : A → Type κ) (p : A → Bool) (xs : List A) → All P xs → All P (select_where p xs)
  All-select_of_All P p [] h = tt
  All-select_of_All P p (x ∷ xs) h =
      All-if P (p x) x (select_where p xs) h.0 (All-select_of_All P p xs h.1)

  -- A predicate that an update keeps on the rows that it touches holds of all rows after it.
  pub All-update {κ} :
      (P : A → Type κ) (p : A → Bool) (f : A → A) (xs : List A)
      → ((x : A) → p x ≡ true → P x → P (f x))
      → All P xs
      → All P (update_where p f xs)
  All-update P p f [] k h = tt
  All-update P p f (x ∷ xs) k h = (go (p x) refl, All-update P p f xs k h.1)
    where
      go : (b : Bool) → p x ≡ b → P (if b then f x else x)
      go true e = k x e h.0
      go false e = h.0

  -- An update that keeps what a map reads leaves the mapped column alone.
  pub map-update {κ} :
      {B : Type κ} (g : A → B) (p : A → Bool) (f : A → A) (xs : List A)
      → ((x : A) → g (f x) ≡ g x)
      → map g (update_where p f xs) ≡ map g xs
  map-update g p f [] k = refl
  map-update g p f (x ∷ xs) k = ground (arith, k x, map-update g p f xs k)

  -- An update that keeps a test keeps the number of rows that pass it.
  pub count-update :
      (q p : A → Bool) (f : A → A) (xs : List A)
      → ((x : A) → q (f x) ≡ q x)
      → count_where q (update_where p f xs) ≡ count_where q xs
  count-update q p f [] k = refl
  count-update q p f (x ∷ xs) k = ground (arith, k x, count-update q p f xs k)

  pub count-append :
      (q : A → Bool) (xs ys : List A)
      → count_where q (xs ++ ys) ≡ count_where q xs + count_where q ys
  count-append q [] ys = omega arith
  count-append q (x ∷ xs) ys = omega (arith, count-append q xs ys)

  -- An update that touches no row changes nothing.
  pub update_none :
      (p : A → Bool) (f : A → A) (xs : List A)
      → All (λ x. p x ≡ false) xs
      → update_where p f xs ≡ xs
  update_none p f [] h = refl
  update_none p f (x ∷ xs) h = ground (arith, update_none p f xs h.1)

  pub find-holds : (p : A → Bool) (xs : List A) (a : A) → find_where p xs ≡ some a → p a ≡ true
  find-holds p [] a h = cc
  find-holds p (x ∷ xs) a h = ground (arith, find-holds p xs a)

  pub find_none : (p : A → Bool) (xs : List A) → find_where p xs ≡ none → All (λ x. p x ≡ false) xs
  find_none p [] h = tt
  find_none p (x ∷ xs) h = ground (arith, find_none p xs)

  -- A row that is added is found if no other was; a deleted one is not found.
  pub find-append :
      (p : A → Bool) (xs : List A) (y : A)
      → any_where p xs ≡ false
      → p y ≡ true
      → find_where p (xs ++ y ∷ []) ≡ some y
  find-append p [] y n h = ground arith
  find-append p (x ∷ xs) y n h = ground (arith, find-append p xs y)

  pub find-delete : (p : A → Bool) (xs : List A) → find_where p (delete_where p xs) ≡ none
  find-delete p [] = refl
  find-delete p (x ∷ xs) = ground (arith, find-delete p xs)

  pub select-delete : (p : A → Bool) (xs : List A) → select_where p (delete_where p xs) ≡ []
  select-delete p [] = refl
  select-delete p (x ∷ xs) = ground (arith, select-delete p xs)

  -- A deletion leaves the rows of a test alone that the deleted rows do not pass.
  pub select-delete_other :
      (p q : A → Bool) (xs : List A)
      → ((x : A) → p x ≡ true → q x ≡ false)
      → select_where q (delete_where p xs) ≡ select_where q xs
  select-delete_other p q [] k = refl
  select-delete_other p q (x ∷ xs) k = ground (arith, select-delete_other p q xs k, k x)

  pub find-delete_other :
      (p q : A → Bool) (xs : List A)
      → ((x : A) → p x ≡ true → q x ≡ false)
      → find_where q (delete_where p xs) ≡ find_where q xs
  find-delete_other p q [] k = refl
  find-delete_other p q (x ∷ xs) k = ground (arith, find-delete_other p q xs k, k x)

  pub find-update :
      (p : A → Bool) (f : A → A) (xs : List A) (x : A)
      → ((y : A) → p (f y) ≡ p y)
      → find_where p xs ≡ some x
      → find_where p (update_where p f xs) ≡ some (f x)
  find-update p f [] x k h = cc
  find-update p f (y ∷ ys) x k h = ground (arith, k y, find-update p f ys x k)

module _ {A : Type 0} where
  -- A row is selected exactly when it is in the table and passes the test.
  pub In-select :
      (p : A → Bool) (a : A) (xs : List A) → In a xs → p a ≡ true → In a (select_where p xs)
  In-select p a [] m h = absurd m
  In-select p a (x ∷ xs) (inl e) h = ground arith
  In-select p a (x ∷ xs) (inr m) h = ground (arith, In-select p a xs m h)

  pub In_of_select : (p : A → Bool) (a : A) (xs : List A) → In a (select_where p xs) → In a xs
  In_of_select p a [] m = m
  In_of_select p a (x ∷ xs) m = ground (arith, In_of_select p a xs)

  pub find-In : (p : A → Bool) (xs : List A) (a : A) → find_where p xs ≡ some a → In a xs
  find-In p [] a h = cc
  find-In p (x ∷ xs) a h = ground (arith, find-In p xs a)
