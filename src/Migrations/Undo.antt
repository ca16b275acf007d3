-- ===== src/Migrations/Undo.antt =====
-- What undoes an operation on a schema.
use mathlib.Core.Path.{subst}
use mdmfleetmanagement.Prelude.{
  String, Bool, true, false, Option, none, some, List, [], ◌∷◌, ◌++◌, ◌==◌, ◌||◌, ◌≡◌, refl, sym,
  arith, inl, inr, Bool-cases, eq_iff, eq_refl,
}
use mdmfleetmanagement.Prelude.Rows.{any_where, delete_where}
use mdmfleetmanagement.Migrations.Schema.{
  Schema, Table, Column, Index, refuse_if, is_table, has_table, is_table_with, has_column,
  is_reference_to, refers_to, is_dangling, has_dangling, is_on, covers, is_index, create_table,
  is_other_referrer, drop_table, create_index, drop_index,
}

module _ {A : Type 0} where
  pub any-snoc :
      (p : A → Bool) (xs : List A) (y : A) → any_where p (xs ++ y ∷ []) ≡ (any_where p xs || p y)
  any-snoc p [] y = ground arith
  any-snoc p (x ∷ xs) y = ground (arith, any-snoc p xs y)

  pub any_mono :
      (p q : A → Bool) (xs : List A)
      → ((x : A) → q x ≡ true → p x ≡ true)
      → any_where p xs ≡ false
      → any_where q xs ≡ false
  any_mono p q [] k h = refl
  any_mono p q (x ∷ xs) k h = ground (arith, k x, any_mono p q xs k)

  pub delete_none : (p : A → Bool) (xs : List A) → any_where p xs ≡ false → delete_where p xs ≡ xs
  delete_none p [] h = refl
  delete_none p (x ∷ xs) h = ground (arith, delete_none p xs)

  pub delete-snoc :
      (p : A → Bool) (xs : List A) (y : A)
      → any_where p xs ≡ false
      → p y ≡ true
      → delete_where p (xs ++ y ∷ []) ≡ xs
  delete-snoc p [] y h k = ground arith
  delete-snoc p (x ∷ xs) y h k = ground (arith, delete-snoc p xs y)

-- No reference and no index is to a table or a column that is not there.
pub record IsClosed (s : Schema) : Type 0 where
  pub no_reference : (n : String) → has_table n s ≡ false → any_where (refers_to n) s.tables ≡ false
  pub no_index : (n : String) → has_table n s ≡ false → any_where (is_on n) s.indexes ≡ false
  pub no_cover :
      (t c : String) → has_column t c s ≡ false → any_where (covers t c) s.indexes ≡ false

pub not_refused : (b : Bool) (s s' : Schema) → refuse_if b s ≡ some s' → (b ≡ false) × (s' ≡ s)
not_refused true s s' h = cc
not_refused false s s' h = (refl, cc)

pub or_false : (a b : Bool) → (a || b) ≡ false → (a ≡ false) × (b ≡ false)
or_false a b h = ground arith

pub accepted : (b : Bool) (s s' : Schema) → b ≡ false → s ≡ s' → refuse_if b s ≡ some s'
accepted b s s' h e = rw (h, e) refl

pub same_parts :
    (s : Schema) (ts : List Table) (ix : List Index)
    → ts ≡ s.tables
    → ix ≡ s.indexes
    → record { tables = ts; indexes = ix } ≡ s
same_parts s ts ix e f = rw (e, f) refl

is_table_refl : (t : Table) → is_table t.name t ≡ true
unfolding is_table
is_table_refl t = eq_refl t.name

drop_created :
    (t : Table) (s : Schema)
    → IsClosed s
    → has_table t.name s ≡ false
    → drop_table t.name (record s { tables = s.tables ++ t ∷ [] }) ≡ some s
unfolding drop_table has_table
drop_created t s c n =
    let present = any-snoc (is_table t.name) s.tables t in
    let known = is_table_refl t in
    let alone = any-snoc (is_other_referrer t.name) s.tables t in
    let free =
      any_mono (refers_to t.name) (is_other_referrer t.name) s.tables
        (λ x q. unfold is_other_referrer in ground arith) (c.no_reference t.name n) in
    let own : is_other_referrer t.name t ≡ false = unfold is_other_referrer in ground arith in
    accepted _ _ s (ground arith) (
      same_parts s _ _ (delete-snoc (is_table t.name) s.tables t n known)
        (delete_none (is_on t.name) s.indexes (c.no_index t.name n)))

pub create_then_drop :
    (t : Table) (s s' : Schema)
    → IsClosed s
    → create_table t s ≡ some s'
    → drop_table t.name s' ≡ some s
unfolding create_table
create_then_drop t s s' c h =
    let (b, e) = not_refused _ _ s' h in let (n, g) = or_false _ _ b in rw e (drop_created t s c n)

dangling_reference :
    (s : Schema) (n : String) (r : Option String)
    → is_dangling s r ≡ false
    → has_table n s ≡ false
    → is_reference_to n r ≡ false
unfolding is_dangling is_reference_to
dangling_reference s n none h k = refl
dangling_reference s n (some m) h k = elim (Bool-cases (m == n)) [
  | inl e ↦
      (let q : has_table m s ≡ false =
          subst (λ x. has_table x s ≡ false) (sym ((eq_iff m n).0 e)) k in
        let r : has_table m s ≡ true = ground arith in cc)
  | inr e ↦ e
]

not_dangling :
    (s : Schema) (n : String) (cs : List Column)
    → any_where (λ c. is_dangling s c.references) cs ≡ false
    → has_table n s ≡ false
    → any_where (λ c. is_reference_to n c.references) cs ≡ false
not_dangling s n [] h k = refl
not_dangling s n (c ∷ cs) h k =
    ground (arith, dangling_reference s n c.references, not_dangling s n cs)

created-IsClosed :
    (t : Table) (s : Schema)
    → IsClosed s
    → has_dangling s t ≡ false
    → IsClosed (record s { tables = s.tables ++ t ∷ [] })
unfolding has_dangling has_table has_column
created-IsClosed t s c g = record {
  no_reference = λ m k.
      let a = any-snoc (is_table m) s.tables t in
      let b = any-snoc (refers_to m) s.tables t in
      let old : has_table m s ≡ false = ground arith in
      let none_old = c.no_reference m old in
      let none_new : refers_to m t ≡ false = unfold refers_to in not_dangling s m t.columns g old in
      ground arith;
  no_index = λ m k. let a = any-snoc (is_table m) s.tables t in c.no_index m (ground arith);
  no_cover =
      λ u v k. let a = any-snoc (is_table_with u v) s.tables t in c.no_cover u v (ground arith);
}

pub create_table-IsClosed :
    (t : Table) (s s' : Schema) → IsClosed s → create_table t s ≡ some s' → IsClosed s'
unfolding create_table
create_table-IsClosed t s s' c h =
    let (b, e) = not_refused _ _ s' h in
    let g : has_dangling s t ≡ false = ground arith in
    subst IsClosed (sym e) (created-IsClosed t s c g)

pub create_then_drop_index :
    (i : Index) (s s' : Schema) → create_index i s ≡ some s' → drop_index i.name s' ≡ some s
unfolding create_index drop_index
create_then_drop_index i s s' h =
    let (b, e) = not_refused _ _ s' h in
    let n : any_where (is_index i.name) s.indexes ≡ false = ground arith in
    let m : is_index i.name i ≡ true = unfold is_index in eq_refl i.name in
    let a = any-snoc (is_index i.name) s.indexes i in
    rw e (
      accepted _ _ s (ground arith)
        (same_parts s _ _ refl (delete-snoc (is_index i.name) s.indexes i n m)))
