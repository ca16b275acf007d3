-- ===== src/Ota/History.antt =====
-- The history accounts for every event.
use mdmfleetmanagement.Prelude.{
  ℕ, suc, ◌+◌, ◌≤◌, String, Bool, true, false, List, [], ◌∷◌, if◌then◌else◌, ◌==◌, ◌&&◌, eqb, ◌≡◌,
  refl, sym, ◌∙◌, arith, eq_iff, length, take-ge,
}
use mdmfleetmanagement.Prelude.Rows.{count_where}
use mdmfleetmanagement.Prelude.Int.{pos}
use mdmfleetmanagement.Models.{OtaEvent}
use mdmfleetmanagement.Session.{Session, ok}
use mdmfleetmanagement.Ota.Select.{in_flight, limit}
use mdmfleetmanagement.Ota.Campaigns.{
  OtaCampaign, bucket_of, one_if, campaign_of, merge, same_key, add_campaign, group, insert_desc,
  sort_desc, get_campaigns,
}

-- The rows with a key, added up by a column.
abbrev pub sum_at : String → ℕ → (OtaCampaign → ℕ) → List OtaCampaign → ℕ
sum_at v b f [] = 0
sum_at v b f (c ∷ cs) = (if c.to_version == v && eqb c.bucket b then f c else 0) + sum_at v b f cs

-- A column that merging adds up.
pub record IsColumn (f : OtaCampaign → ℕ) : Type 0 where
  pub adds : (a b : OtaCampaign) → f (merge a b) ≡ f a + f b

module _ (v : String) (b : ℕ) (f : OtaCampaign → ℕ) (column : IsColumn f) where
  weight : OtaCampaign → ℕ
  weight c = if c.to_version == v && eqb c.bucket b then f c else 0

  sum_merge : (a c : OtaCampaign) → same_key a c ≡ true → weight (merge a c) ≡ weight a + weight c
  unfolding weight same_key merge
  sum_merge a c h =
      let p : a.to_version ≡ c.to_version = ground (arith, eq_iff a.to_version c.to_version) in
      let q : a.bucket ≡ c.bucket = ground arith in
      let t : (c.to_version == v && eqb c.bucket b) ≡ (a.to_version == v && eqb a.bucket b) =
        λ i. sym p i == v && eqb (sym q i) b in
      rw t (ground (arith, column.adds a c))

  sum-add_campaign :
      (c : OtaCampaign) (cs : List OtaCampaign)
      → sum_at v b f (add_campaign c cs) ≡ weight c + sum_at v b f cs
  unfolding add_campaign weight
  sum-add_campaign c [] = refl
  sum-add_campaign c (a ∷ cs) = ground (arith, sum_merge a c, sum-add_campaign c cs)

  sum-insert_desc :
      (c : OtaCampaign) (cs : List OtaCampaign)
      → sum_at v b f (insert_desc c cs) ≡ weight c + sum_at v b f cs
  unfolding insert_desc weight
  sum-insert_desc c [] = refl
  sum-insert_desc c (a ∷ cs) = ground (arith, sum-insert_desc c cs)

  sum-sort_desc : (cs : List OtaCampaign) → sum_at v b f (sort_desc cs) ≡ sum_at v b f cs
  unfolding sort_desc weight
  sum-sort_desc [] = refl
  sum-sort_desc (c ∷ cs) = omega (arith, sum-insert_desc c (sort_desc cs), sum-sort_desc cs)

-- The test that a row, or an event, belongs to a key.
abbrev pub row_at : String → ℕ → OtaCampaign → Bool
row_at v b c = c.to_version == v && eqb c.bucket b

abbrev pub event_at : String → ℕ → OtaEvent → Bool
event_at v b e = e.to_version == v && eqb (bucket_of e) b

-- The rows of a key are those of its events, whatever the key and the column.
sum-group :
    (v : String) (b : ℕ) (f : OtaCampaign → ℕ) (p : OtaEvent → Bool)
    → IsColumn f
    → ((e : OtaEvent) → f (campaign_of e) ≡ one_if (p e))
    → (es : List OtaEvent) → sum_at v b f (group es) ≡ count_where (λ e. event_at v b e && p e) es
unfolding group weight
sum-group v b f p column k [] = refl
sum-group v b f p column k (e ∷ es) =
    sum-add_campaign v b f column (campaign_of e) (group es)
    ∙ ground (arith, k e, sum-group v b f p column k es, key_of_event v b e)
  where
    key_of_event : (v : String) (b : ℕ) (e : OtaEvent) → row_at v b (campaign_of e) ≡ event_at v b e
    key_of_event v b e = unfold campaign_of in refl

module _ (v : String) (b : ℕ) where
  rows-add_other :
      (c : OtaCampaign) (cs : List OtaCampaign)
      → row_at v b c ≡ false
      → count_where (row_at v b) (add_campaign c cs) ≡ count_where (row_at v b) cs
  unfolding add_campaign merge
  rows-add_other c [] h = ground arith
  rows-add_other c (a ∷ cs) h = ground (arith, rows-add_other c cs h)

  same_row : (a c : OtaCampaign) → same_key a c ≡ false → row_at v b a ≡ true → row_at v b c ≡ false
  unfolding same_key
  same_row a c h k =
      ground (arith, eq_iff a.to_version c.to_version, eq_iff a.to_version v, eq_iff c.to_version v)

  rows-add_campaign :
      (c : OtaCampaign) (cs : List OtaCampaign)
      → count_where (row_at v b) cs ≤ 1
      → count_where (row_at v b) (add_campaign c cs) ≤ 1
  unfolding add_campaign merge
  rows-add_campaign c [] h = ground arith
  rows-add_campaign c (a ∷ cs) h =
      ground (arith, rows-add_campaign c cs, rows-add_other c cs, same_row a c)

  rows-group : (es : List OtaEvent) → count_where (row_at v b) (group es) ≤ 1
  unfolding group
  rows-group [] = omega arith
  rows-group (e ∷ es) = rows-add_campaign (campaign_of e) (group es) (rows-group es)

  rows-insert_desc :
      (c : OtaCampaign) (cs : List OtaCampaign)
      → count_where (row_at v b) (insert_desc c cs)
        ≡ (if row_at v b c then 1 else 0) + count_where (row_at v b) cs
  unfolding insert_desc
  rows-insert_desc c [] = refl
  rows-insert_desc c (a ∷ cs) = ground (arith, rows-insert_desc c cs)

  rows-sort_desc :
      (cs : List OtaCampaign)
      → count_where (row_at v b) (sort_desc cs) ≡ count_where (row_at v b) cs
  unfolding sort_desc
  rows-sort_desc [] = refl
  rows-sort_desc (c ∷ cs) = omega (arith, rows-insert_desc c (sort_desc cs), rows-sort_desc cs)

length-insert_desc :
    (c : OtaCampaign) (cs : List OtaCampaign) → length (insert_desc c cs) ≡ suc (length cs)
unfolding insert_desc
length-insert_desc c [] = refl
length-insert_desc c (a ∷ cs) = ground (arith, length-insert_desc c cs)

length-sort_desc : (cs : List OtaCampaign) → length (sort_desc cs) ≡ length cs
unfolding sort_desc
length-sort_desc [] = refl
length-sort_desc (c ∷ cs) = omega (arith, length-insert_desc c (sort_desc cs), length-sort_desc cs)

count_every :
    (v : String) (b : ℕ) (es : List OtaEvent)
    → count_where (λ e. event_at v b e && true) es ≡ count_where (event_at v b) es
count_every v b [] = refl
count_every v b (e ∷ es) = ground (arith, count_every v b es)

-- A column of the sorted groups counts the events of the key that pass the column's test.
sum-history :
    (v : String) (b : ℕ) (f : OtaCampaign → ℕ) (p : OtaEvent → Bool)
    → ((x y : OtaCampaign) → f (merge x y) ≡ f x + f y)
    → ((e : OtaEvent) → f (campaign_of e) ≡ one_if (p e))
    → (es : List OtaEvent)
    → sum_at v b f (sort_desc (group es)) ≡ count_where (λ e. event_at v b e && p e) es
sum-history v b f p adds k es =
    let column : IsColumn f = record { adds = adds } in
    sum-sort_desc v b f column (group es) ∙ sum-group v b f p column k es

-- With a limit that is not below the number of groups the history is complete: it has at most one
-- row for a version and a minute, and that row counts exactly the events that went to the version
-- and started in the minute, in all, those that succeeded, those that failed and those in flight.
pub get_campaigns_complete :
    (n : ℕ) (s : Session) (v : String) (b : ℕ)
    → length (group s.db.ota_events) ≤ n
    → (rows : List OtaCampaign) × (get_campaigns (pos n) s ≡ (ok rows, s))
      × (count_where (row_at v b) rows ≤ 1)
      × (sum_at v b (λ c. c.total) rows ≡ count_where (event_at v b) s.db.ota_events)
      × (sum_at v b (λ c. c.success) rows
          ≡ count_where (λ e. event_at v b e && e.status == "success") s.db.ota_events)
      × (sum_at v b (λ c. c.failed) rows
          ≡ count_where (λ e. event_at v b e && e.status == "failed") s.db.ota_events)
      × (sum_at v b (λ c. c.in_flight_count) rows
          ≡ count_where (λ e. event_at v b e && in_flight e.status) s.db.ota_events)
unfolding get_campaigns limit merge campaign_of
get_campaigns_complete n s v b h =
    let es = s.db.ota_events in
    let small : length (sort_desc (group es)) ≤ n = omega (arith, length-sort_desc (group es)) in
    (
      sort_desc (group es),
      rw (take-ge n (sort_desc (group es)) small),
      omega (arith, rows-sort_desc v b (group es), rows-group v b es),
      sum-history v b (λ c. c.total) (λ e. true) (λ x y. refl) (λ e. refl) es ∙ count_every v b es,
      sum-history v b (λ c. c.success) (λ e. e.status == "success") (λ x y. refl) (λ e. refl) es,
      sum-history v b (λ c. c.failed) (λ e. e.status == "failed") (λ x y. refl) (λ e. refl) es,
      sum-history v b (λ c. c.in_flight_count) (λ e. in_flight e.status) (λ x y. refl) (λ e. refl)
          es,
    )
