-- ===== src/Ota/Latest.antt =====
-- Events in the order of their start, the latest first, and the first of these:
-- `order_by(OTAEvent.started_at.desc())` and `.limit(1)` in services/ota.py and mqtt/handlers.py.
use mdmfleetmanagement.Prelude.{
  In, All-In, All-of_In, ℕ, ◌≤◌, Bool, true, false, Option, none, some, List, [], ◌∷◌,
  if◌then◌else◌, leb, ◌≡◌, arith, All, Bool-cases, inl, inr,
}
use mathlib.Core.Path.{subst}
use mdmfleetmanagement.Prelude.Rows.{select_where, All-select, In_of_select}
use mdmfleetmanagement.Models.{OtaEvent}

-- ORDER BY started_at DESC
unfoldable pub insert_latest : OtaEvent → List OtaEvent → List OtaEvent
insert_latest e [] = e ∷ []
insert_latest e (a ∷ es) =
    if leb a.started_at e.started_at then e ∷ a ∷ es else a ∷ insert_latest e es

unfoldable pub latest_first : List OtaEvent → List OtaEvent
latest_first [] = []
latest_first (e ∷ es) = insert_latest e (latest_first es)

-- The first row of a result, or None.
unfoldable pub first : List OtaEvent → Option OtaEvent
first [] = none
first (e ∷ es) = some e

unfoldable pub latest : List OtaEvent → Option OtaEvent
latest es = first (latest_first es)

All-insert_latest :
    (P : OtaEvent → Type 0) (e : OtaEvent) (es : List OtaEvent)
    → P e
    → All P es
    → All P (insert_latest e es)
unfolding insert_latest
All-insert_latest P e [] h hs = (h, tt)
All-insert_latest P e (a ∷ es) h hs =
    insert_all (leb a.started_at e.started_at) (All-insert_latest P e es h hs.1)
  where
    insert_all :
        (b : Bool)
        → All P (insert_latest e es)
        → All P (if b then e ∷ a ∷ es else a ∷ insert_latest e es)
    insert_all true r = (h, hs)
    insert_all false r = (hs.0, r)

pub All-latest_first :
    (P : OtaEvent → Type 0) (es : List OtaEvent) → All P es → All P (latest_first es)
unfolding latest_first
All-latest_first P [] h = tt
All-latest_first P (e ∷ es) h =
    All-insert_latest P e (latest_first es) h.0 (All-latest_first P es h.1)

-- The latest of some rows has what all of these have.
pub latest-All :
    (P : OtaEvent → Type 0) (es : List OtaEvent) (e : OtaEvent)
    → All P es
    → latest es ≡ some e
    → P e
unfolding latest first
latest-All P es e h q = head_all (latest_first es) (All-latest_first P es h) q
  where
    head_all : (xs : List OtaEvent) → All P xs → first xs ≡ some e → P e
    head_all [] hs r = cc
    head_all (x ∷ xs) hs r = let p : x ≡ e = cc in rw (← p) hs.0

abbrev StartsBy : ℕ → List OtaEvent → Type 0
StartsBy k es = All (λ a. a.started_at ≤ k) es

-- The first row starts no earlier than the others.
abbrev IsTopped : List OtaEvent → Type 0
IsTopped [] = Unit
IsTopped (e ∷ es) = StartsBy e.started_at es

StartsBy-mono : (j k : ℕ) (es : List OtaEvent) → j ≤ k → StartsBy j es → StartsBy k es
StartsBy-mono j k [] h hs = tt
StartsBy-mono j k (e ∷ es) h hs = (omega arith, StartsBy-mono j k es h hs.1)

insert_latest-IsTopped :
    (e : OtaEvent) (es : List OtaEvent) → IsTopped es → IsTopped (insert_latest e es)
unfolding insert_latest
insert_latest-IsTopped e [] h = tt
insert_latest-IsTopped e (a ∷ es) h = elim (Bool-cases (leb a.started_at e.started_at)) [
  | inl q ↦ rw q (
      let le : a.started_at ≤ e.started_at = ground arith in
      (le, StartsBy-mono a.started_at e.started_at es le h))
  | inr q ↦ rw q (All-insert_latest (λ b. b.started_at ≤ a.started_at) e es (ground arith) h)
]

latest_first-IsTopped : (es : List OtaEvent) → IsTopped (latest_first es)
unfolding latest_first
latest_first-IsTopped [] = tt
latest_first-IsTopped (e ∷ es) =
    insert_latest-IsTopped e (latest_first es) (latest_first-IsTopped es)

StartsBy-of_insert :
    (k : ℕ) (e : OtaEvent) (es : List OtaEvent)
    → StartsBy k (insert_latest e es)
    → (e.started_at ≤ k) × StartsBy k es
unfolding insert_latest
StartsBy-of_insert k e [] h = (h.0, tt)
StartsBy-of_insert k e (a ∷ es) h = elim (Bool-cases (leb a.started_at e.started_at)) [
  | inl q ↦ (let g = rw q at h in (g.0, g.1))
  | inr q ↦ (let g = rw q at h in let (x, y) = StartsBy-of_insert k e es g.1 in (x, (g.0, y)))
]

StartsBy-of_latest_first :
    (k : ℕ) (es : List OtaEvent) → StartsBy k (latest_first es) → StartsBy k es
unfolding latest_first
StartsBy-of_latest_first k [] h = tt
StartsBy-of_latest_first k (e ∷ es) h =
    let (x, y) = StartsBy-of_insert k e (latest_first es) h in (x, StartsBy-of_latest_first k es y)

top_of :
    (xs : List OtaEvent) (e : OtaEvent) → IsTopped xs → first xs ≡ some e → StartsBy e.started_at xs
unfolding first
top_of [] e h q = cc
top_of (x ∷ xs) e h q =
    let p : x ≡ e = cc in subst (λ y. StartsBy y.started_at (x ∷ xs)) p (omega arith, h)

-- No row starts after the latest.
pub latest_max :
    (es : List OtaEvent) (e : OtaEvent)
    → latest es ≡ some e
    → All (λ a. a.started_at ≤ e.started_at) es
unfolding latest
latest_max es e q =
    StartsBy-of_latest_first e.started_at es
      (top_of (latest_first es) e (latest_first-IsTopped es) q)

-- The latest of the rows that pass a test is one of the rows, and passes.
pub latest-select :
    (p : OtaEvent → Bool) (es : List OtaEvent) (e : OtaEvent)
    → latest (select_where p es) ≡ some e
    → In e es × (p e ≡ true)
latest-select p es e q =
    latest-All (λ x. In x es × (p x ≡ true)) (select_where p es) e
      (All-of_In (λ x. In x es × (p x ≡ true)) (select_where p es)
        λ x m.
          (In_of_select p x es m, All-In (λ y. p y ≡ true) (select_where p es) (All-select p es) m))
      q
