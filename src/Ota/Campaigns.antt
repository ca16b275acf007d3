-- ===== src/Ota/Campaigns.antt =====
-- The history of rollouts: services/ota.py (get_campaigns, get_events).
use mdmfleetmanagement.Prelude.{
  ℕ, ◌+◌, ◌/◌, String, Bool, Option, List, [], ◌∷◌, if◌then◌else◌, ◌==◌, ◌&&◌, leb, eqb,
}
use mdmfleetmanagement.Prelude.Rows.{select_where}
use mdmfleetmanagement.Prelude.Int.{ℤ}
use mdmfleetmanagement.Prelude.Text.{has_text, text_or}
use mdmfleetmanagement.Models.{OtaEvent}
use mdmfleetmanagement.Session.{Action, query, ◌>>=◌}
use mdmfleetmanagement.Ota.Latest.{latest_first}
use mdmfleetmanagement.Ota.Select.{in_flight, limit}

-- A row of the history (schemas/ota.py, OTACampaign); `bucket` is started_at cut to the minute.
pub record OtaCampaign : Type 0 where
  pub to_version : String
  pub bucket : ℕ
  pub total : ℕ
  pub success : ℕ
  pub failed : ℕ
  pub in_flight_count : ℕ

abbrev pub minute : ℕ
minute = 60_000_000

-- date_trunc("minute", started_at), counted in minutes
abbrev pub bucket_of : OtaEvent → ℕ
bucket_of e = e.started_at / minute

-- case((test, 1), else_=0)
abbrev pub one_if : Bool → ℕ
one_if b = if b then 1 else 0

-- The group of one event.
unfoldable pub campaign_of : OtaEvent → OtaCampaign
campaign_of e = record {
  to_version = e.to_version;
  bucket = bucket_of e;
  total = 1;
  success = one_if (e.status == "success");
  failed = one_if (e.status == "failed");
  in_flight_count = one_if (in_flight e.status);
}

-- Two groups of one key as one.
unfoldable pub merge : OtaCampaign → OtaCampaign → OtaCampaign
merge a b = record a {
  total = a.total + b.total;
  success = a.success + b.success;
  failed = a.failed + b.failed;
  in_flight_count = a.in_flight_count + b.in_flight_count;
}

-- GROUP BY to_version, bucket
unfoldable pub same_key : OtaCampaign → OtaCampaign → Bool
same_key a b = a.to_version == b.to_version && eqb a.bucket b.bucket

unfoldable pub add_campaign : OtaCampaign → List OtaCampaign → List OtaCampaign
add_campaign c [] = c ∷ []
add_campaign c (a ∷ cs) = if same_key a c then merge a c ∷ cs else a ∷ add_campaign c cs

unfoldable pub group : List OtaEvent → List OtaCampaign
group [] = []
group (e ∷ es) = add_campaign (campaign_of e) (group es)

-- ORDER BY bucket DESC
unfoldable pub insert_desc : OtaCampaign → List OtaCampaign → List OtaCampaign
insert_desc c [] = c ∷ []
insert_desc c (a ∷ cs) = if leb a.bucket c.bucket then c ∷ a ∷ cs else a ∷ insert_desc c cs

unfoldable pub sort_desc : List OtaCampaign → List OtaCampaign
sort_desc [] = []
sort_desc (c ∷ cs) = insert_desc c (sort_desc cs)

-- OTAService.get_campaigns
unfoldable pub get_campaigns : ℤ → Action (List OtaCampaign)
get_campaigns n = do rows ← query (λ d. sort_desc (group d.ota_events)); limit n rows

-- OTAService.get_events
unfoldable pub get_events : Option String → Action (List OtaEvent)
get_events v = query (λ d. latest_first (
    if has_text v
    then select_where (λ e. e.to_version == text_or v "") d.ota_events
    else d.ota_events))
