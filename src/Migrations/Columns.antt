-- ===== src/Migrations/Columns.antt =====
-- A column that is added and dropped again, or renamed and renamed back.
use mdmfleetmanagement.Prelude.{
  String, Bool, true, false, not, some, List, [], ◌∷◌, ◌==◌, ◌≡◌, refl, sym, ap, arith, inl, inr,
  Bool-cases, eq_iff, eq_refl,
}
use mdmfleetmanagement.Prelude.Rows.{any_where, update_where}
use mdmfleetmanagement.Migrations.Schema.{
  Schema, Table, Column, Index, is_table, is_column, has_table, is_table_with, has_column, is_on,
  covers, with_column, add_column, without_column, drop_column, renamed, with_renamed,
  index_renamed, rename_column,
}
use mdmfleetmanagement.Migrations.Undo.{
  IsClosed, any-snoc, delete_none, delete-snoc, not_refused, accepted, same_parts,
}

is_column_refl : (c : Column) → is_column c.name c ≡ true
unfolding is_column
is_column_refl c = eq_refl c.name

module _ {A : Type 0} where
  -- Two updates of the same rows, the second of which takes the first back where `q` fails.
  update_back :
      (p q : A → Bool) (f g : A → A) (xs : List A)
      → any_where q xs ≡ false
      → ((x : A) → p (f x) ≡ p x)
      → ((x : A) → p x ≡ true → q x ≡ false → g (f x) ≡ x)
      → update_where p g (update_where p f xs) ≡ xs
  update_back p q f g [] n k h = refl
  update_back p q f g (x ∷ xs) n k h = ground (arith, k x, h x, update_back p q f g xs)

  any-update :
      (p q : A → Bool) (f : A → A) (xs : List A)
      → any_where p xs ≡ true
      → ((x : A) → p x ≡ true → q (f x) ≡ true)
      → any_where q (update_where p f xs) ≡ true
  any-update p q f [] h e = cc
  any-update p q f (x ∷ xs) h e = ground (arith, e x, any-update p q f xs)

  -- An update after which no row that it touches passes a test that implies its own.
  any_none-update :
      (p q : A → Bool) (f : A → A) (xs : List A)
      → ((x : A) → p x ≡ true → q (f x) ≡ false)
      → ((x : A) → p x ≡ false → q x ≡ false)
      → any_where q (update_where p f xs) ≡ false
  any_none-update p q f [] h k = refl
  any_none-update p q f (x ∷ xs) h k = ground (arith, h x, k x, any_none-update p q f xs)

not_in_table :
    (t c : String) (x : Table)
    → is_table t x ≡ true
    → is_table_with t c x ≡ false
    → any_where (is_column c) x.columns ≡ false
unfolding is_table_with
not_in_table t c x p q = ground arith

same_columns : (x : Table) (cs : List Column) → cs ≡ x.columns → record x { columns = cs } ≡ x
same_columns x cs e = rw e refl

column_back :
    (t : String) (c : Column) (x : Table)
    → is_table t x ≡ true
    → is_table_with t c.name x ≡ false
    → without_column c.name (with_column c x) ≡ x
column_back t c x p q =
    same_columns x _
      (delete-snoc (is_column c.name) x.columns c (not_in_table t c.name x p q) (is_column_refl c))

has_added :
    (t : String) (c : Column) (x : Table)
    → is_table t x ≡ true
    → is_table_with t c.name (with_column c x) ≡ true
unfolding is_table_with is_table
has_added t c x p =
    let a = any-snoc (is_column c.name) x.columns c in let b = is_column_refl c in ground arith

is_table-with_column :
    (t : String) (c : Column) (x : Table) → is_table t (with_column c x) ≡ is_table t x
unfolding is_table
is_table-with_column t c x = refl

drop_added :
    (t : String) (c : Column) (s : Schema)
    → IsClosed s
    → has_table t s ≡ true
    → has_column t c.name s ≡ false
    → drop_column t c.name
        (record s { tables = update_where (is_table t) (with_column c) s.tables })
      ≡ some s
unfolding drop_column has_column has_table
drop_added t c s k m n =
    accepted _ _ s
      (ap not (
        any-update (is_table t) (is_table_with t c.name) (with_column c) s.tables m
          (has_added t c)))
      (same_parts s _ _
        (update_back (is_table t) (is_table_with t c.name) (with_column c) (without_column c.name)
          s.tables n (is_table-with_column t c) (column_back t c))
        (delete_none (covers t c.name) s.indexes (k.no_cover t c.name n)))

pub add_then_drop :
    (t : String) (c : Column) (s s' : Schema)
    → IsClosed s
    → add_column t c s ≡ some s'
    → drop_column t c.name s' ≡ some s
unfolding add_column
add_then_drop t c s s' k h =
    let (b, e) = not_refused _ _ s' h in
    let m : has_table t s ≡ true = ground arith in
    let n : has_column t c.name s ≡ false = ground arith in rw e (drop_added t c s k m n)

-- Renaming.
rename_back :
    (a b : String) (cs : List Column)
    → any_where (is_column b) cs ≡ false
    → update_where (is_column b) (renamed a) (update_where (is_column a) (renamed b) cs) ≡ cs
unfolding is_column
rename_back a b [] n = refl
rename_back a b (c ∷ cs) n = elim (Bool-cases (c.name == a)) [
  | inl e ↦
      (let rest = rename_back a b cs (ground arith) in
        let same : record c { name = a } ≡ c = rw (sym ((eq_iff c.name a).0 e)) refl in
        rw e (rw (eq_refl b) (rw rest (ap (λ x. x ∷ cs) same))))
  | inr e ↦
      (let rest = rename_back a b cs (ground arith) in
        let m : (c.name == b) ≡ false = ground arith in rw e (rw m (rw rest refl)))
]

names_back :
    (a b : String) (ns : List String)
    → any_where (λ d. d == b) ns ≡ false
    → update_where (λ d. d == b) (λ d. a) (update_where (λ d. d == a) (λ d. b) ns) ≡ ns
names_back a b [] n = refl
names_back a b (d ∷ ds) n = elim (Bool-cases (d == a)) [
  | inl e ↦
      (let rest = names_back a b ds (ground arith) in
        rw e (rw (eq_refl b) (rw rest (ap (λ x. x ∷ ds) (sym ((eq_iff d a).0 e))))))
  | inr e ↦
      (let rest = names_back a b ds (ground arith) in
        let m : (d == b) ≡ false = ground arith in rw e (rw m (rw rest refl)))
]

none_renamed :
    (a b : String) (cs : List Column)
    → (b == a) ≡ false
    → any_where (is_column a) (update_where (is_column a) (renamed b) cs) ≡ false
unfolding is_column
none_renamed a b cs h =
    any_none-update (is_column a) (is_column a) (renamed b) cs (λ x e. h) (λ x e. e)

some_renamed :
    (a b : String) (cs : List Column)
    → any_where (is_column a) cs ≡ true
    → any_where (is_column b) (update_where (is_column a) (renamed b) cs) ≡ true
unfolding is_column
some_renamed a b cs h = any-update (is_column a) (is_column b) (renamed b) cs h (λ x e. eq_refl b)

any-update_from :
    {A : Type 0} (p r q : A → Bool) (f : A → A) (xs : List A)
    → any_where r xs ≡ true
    → ((x : A) → r x ≡ true → (p x ≡ true) × (q (f x) ≡ true))
    → any_where q (update_where p f xs) ≡ true
any-update_from p r q f [] h e = cc
any-update_from p r q f (x ∷ xs) h e = elim (Bool-cases (r x)) [
  | inl m ↦ (let (u, v) = e x m in rw u (ground arith))
  | inr m ↦ (let rest = any-update_from p r q f xs (ground arith) e in ground arith)
]

same_names :
    (a b : String) (i : Index)
    → any_where (λ d. d == b) i.columns ≡ false
    → index_renamed b a (index_renamed a b i) ≡ i
same_names a b i h = rw (names_back a b i.columns h) refl

table_renamed :
    (t a b : String) (x : Table)
    → is_table_with t a x ≡ true
    → (is_table t x ≡ true) × (is_table_with t b (with_renamed a b x) ≡ true)
unfolding is_table_with is_table
table_renamed t a b x h =
    let m : any_where (is_column a) x.columns ≡ true = ground arith in
    let r = some_renamed a b x.columns m in (ground arith, ground arith)

rename_renamed :
    (t a b : String) (s : Schema)
    → IsClosed s
    → (b == a) ≡ false
    → has_column t a s ≡ true
    → has_column t b s ≡ false
    → rename_column t b a (record {
      tables = update_where (is_table t) (with_renamed a b) s.tables;
      indexes = update_where (is_on t) (index_renamed a b) s.indexes;
    })
      ≡ some s
unfolding rename_column has_column
rename_renamed t a b s k d m n =
    let p =
      any-update_from (is_table t) (is_table_with t a) (is_table_with t b) (with_renamed a b)
        s.tables m (table_renamed t a b) in
    let q =
      any_none-update (is_table t) (is_table_with t a) (with_renamed a b) s.tables
        (λ x e. let r = none_renamed a b x.columns d in unfold is_table_with in ground arith)
        (λ x e. unfold is_table_with in rw e refl) in
    accepted _ _ s (rw (p, q) refl) (
      same_parts s _ _
        (update_back (is_table t) (is_table_with t b) (with_renamed a b) (with_renamed b a) s.tables
          n (λ x. unfold is_table in refl)
          (λ x p q. same_columns x _ (rename_back a b x.columns (not_in_table t b x p q))))
        (update_back (is_on t) (covers t b) (index_renamed a b) (index_renamed b a) s.indexes
          (k.no_cover t b n) (λ x. unfold is_on in refl)
          (λ i p q. same_names a b i (unfold covers in ground arith))))

pub rename_then_back :
    (t a b : String) (s s' : Schema)
    → IsClosed s
    → (b == a) ≡ false
    → rename_column t a b s ≡ some s'
    → rename_column t b a s' ≡ some s
unfolding rename_column
rename_then_back t a b s s' k d h =
    let (c, e) = not_refused _ _ s' h in
    let m : has_column t a s ≡ true = ground arith in
    let n : has_column t b s ≡ false = ground arith in rw e (rename_renamed t a b s k d m n)
