-- ===== src/Prelude/Sets.antt =====
-- Python's set of texts, as a list without repetition.
use mathlib.Core.Path.{◌≡◌, refl, sym, ap}
use mathlib.Core.Logic.{◌↔◌, inl, inr}
use mathlib.Core.Bool.{Bool, true, false, not}
use mathlib.Core.List.{List, [], ◌∷◌}
use Prim.Native.String.{String}
use text.Mathlib.Text.{◌==◌}
use text.Mathlib.TextEquality.{eq_iff}
use text.Mathlib.TextPositions.{eq_refl}
use mdmfleetmanagement.Prelude.Tests.{if◌then◌else◌, Bool-cases}
use mdmfleetmanagement.Prelude.Lists.{In, All-In}
use mdmfleetmanagement.Prelude.Rows.{select_where, In-select, In_of_select, All-select}
use mdmfleetmanagement.Prelude.Keys.{Distinct}

-- set(ids), each member at its first place; Python leaves the order open.
unfoldable pub to_set : List String → List String
to_set [] = []
to_set (i ∷ ids) = i ∷ select_where (λ j. not (i == j)) (to_set ids)

-- `to_set` has the same members.
pub to_set_iff : (i : String) (ids : List String) → In i (to_set ids) ↔ In i ids
unfolding to_set
to_set_iff i [] = ((λ m. m), (λ m. m))
to_set_iff i (j ∷ ids) = (to (to_set_iff i ids).0, from (to_set_iff i ids).1)
  where
    to :
        (In i (to_set ids) → In i ids)
        → In i (j ∷ select_where (λ k. not (j == k)) (to_set ids))
        → In i (j ∷ ids)
    to k (inl e) = inl e
    to k (inr m) = inr (k (In_of_select (λ k. not (j == k)) i (to_set ids) m))

    from :
        (In i ids → In i (to_set ids))
        → In i (j ∷ ids)
        → In i (j ∷ select_where (λ k. not (j == k)) (to_set ids))
    from k (inl e) = inl e
    from k (inr m) = elim (Bool-cases (j == i)) [
      | inl e ↦ inl (sym ((eq_iff j i).0 e))
      | inr e ↦ inr (In-select (λ k. not (j == k)) i (to_set ids) (k m) (rw e refl))
    ]

-- A selection of distinct texts has distinct texts.
pub select-Distinct :
    (p : String → Bool) (ids : List String) → Distinct ids → Distinct (select_where p ids)
select-Distinct p [] d = tt
select-Distinct p (i ∷ ids) d = go (p i) (select-Distinct p ids d.1)
  where
    go :
        (b : Bool)
        → Distinct (select_where p ids)
        → Distinct (if b then i ∷ select_where p ids else select_where p ids)
    go true k = ((λ m. d.0 (In_of_select p i ids m)), k)
    go false k = k

not_selected :
    (p : String → Bool) (i : String) (ids : List String)
    → p i ≡ false
    → ¬ (In i (select_where p ids))
not_selected p i ids h m =
    let t = All-In (λ x. p x ≡ true) (select_where p ids) (All-select p ids) m in cc

-- `to_set` has every member once.
pub to_set-Distinct : (ids : List String) → Distinct (to_set ids)
unfolding to_set
to_set-Distinct [] = tt
to_set-Distinct (i ∷ ids) = (
  not_selected (λ j. not (i == j)) i (to_set ids) (ap not (eq_refl i)),
  select-Distinct (λ j. not (i == j)) (to_set ids) (to_set-Distinct ids),
)
