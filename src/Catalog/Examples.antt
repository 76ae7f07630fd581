-- ===== src/Catalog/Examples.antt =====
-- The theorems on the catalog, at two listings of one posting.
use Prim.Native.String
use intern_notifs.Base.{
  ◌≡◌, refl, inl, inr, String, Bool, true, false, not, Option, none, some, List, [], ◌∷◌, map, All,
  any, str_eq, if◌then◌else◌,
}
use intern_notifs.Base.Table.{lookup, put}
use intern_notifs.Base.Sets.{WhereSome, set_all}
use intern_notifs.Catalog.Listing.{new_job_notification_event}
use intern_notifs.Admission.Evidence.{Description, SourceOccurrence, reviewed_community, Precision}
use intern_notifs.Admission.Derive.{decide_among, relevant}
use intern_notifs.Catalog.Types.{ProcessedListing, Internship, SourceOccurrenceState, Tools}
use intern_notifs.Catalog.Job.{create}
use intern_notifs.Catalog.Plan.{ReconciliationInput, Plan}
use intern_notifs.Catalog.Reconcile.{reconcile}
use intern_notifs.Catalog.Announced.{Pairwise, Announces, announced_when_allowed}
use intern_notifs.Catalog.Sound.{AllSound, open_jobs_sound}
use intern_notifs.Catalog.Listed.{WhereListed, listed_occurrences_linked}
use intern_notifs.Catalog.Closing.{
  stored_after, twice_missed, after_snapshots, Follows, closed_after_two,
}
use intern_notifs.Catalog.Known.{known_stay_quiet}
use intern_notifs.Catalog.Occurrence.{is_exact}
use intern_notifs.Catalog.Attached.{knows, merged, TakenFrom, merged-knows}

abbrev plain : Tools
plain = record {
  tidy = λ d. d;
  project = λ job. job.description;
  normalize_url = λ url. if str_eq url "" then none else some url;
  make_fingerprint = λ d season. String.◌++◌ d.title season;
  url_job_id = λ url key. String.◌++◌ "job:" url;
  occurrence_job_id = λ source id. String.◌++◌ source id;
  is_technical = λ listing. true;
  matches_filter = λ d season. true;
  is_past_season = λ season now. str_eq season "summer-2020";
  is_generic_location = λ place. str_eq place "TBD";
  is_registered_official = λ source. false;
  disagree = λ a b. false;
  event_hash = λ text. text;
  same_json = λ a b. str_eq a.apply_url b.apply_url;
}

abbrev intern : Description
intern = record {
  company = "Acme";
  title = "Intern";
  location = "Boston";
  locations = none;
  compensation = record { raw = ""; has_hourly_maximum = false };
  requirements = none;
}

abbrev row_of : String → String → SourceOccurrence
row_of source id = record {
  source_id = source;
  external_id = some id;
  document = "README.md";
  row = 1;
  provenance = some reviewed_community;
  provider_evidence = none;
  identity_decision = none;
  alert_qualification = none;
  technical = none;
  description = intern;
  season = "summer-2027";
  apply_url = "https://acme.test/1";
  is_open = true;
  admission = none;
  first_attached_at = none;
  first_attached_precision = none;
}

abbrev listing_of : String → String → ProcessedListing
listing_of source id = record {
  reference = row_of source id;
  listed_identity = none;
  listed_internship = none;
}

abbrev stored_job : Internship
stored_job = create plain (listing_of "list" "old") "old" "https://acme.test/2" 50 false none none

abbrev known : SourceOccurrenceState
known = record {
  source_id = "list";
  external_id = "old";
  job_id = "job:https://acme.test/2";
  occurrence = row_of "list" "old";
  present = true;
  consecutive_omissions = 0;
  changed_snapshot_hash = "h0";
  changed_at = 50;
  first_observed_at = some 50;
  first_observed_precision = some Precision.exact;
}

-- A snapshot that lists one posting twice, and misses the one that was known for the second time.
abbrev snapshot : ReconciliationInput
snapshot = record {
  source_id = "list";
  snapshot_hash = "h1";
  active_external_ids = "a" ∷ "b" ∷ [];
  listings = listing_of "list" "a" ∷ listing_of "list" "b" ∷ [];
  prior_occurrences = record known { consecutive_omissions = 1; present = false } ∷ [];
  resolved_jobs = ("old", stored_job) ∷ [];
  now = 100;
  baseline = false;
  validated_at = [];
  metadata_validated = [];
  alert_eligible = none;
  publish_unconfirmed = none;
  trusted_alerts = false;
}

announced_when_allowed_example :
    WhereSome
      (λ plan. Pairwise (Announces plain snapshot) plan.notifications plan.new_jobs)
      (reconcile plain snapshot)
announced_when_allowed_example = announced_when_allowed plain snapshot

open_jobs_sound_example : WhereSome (λ plan. AllSound plan.jobs) (reconcile plain snapshot)
unfolding create decide_among relevant
open_jobs_sound_example = open_jobs_sound plain snapshot ((λ h. (refl, refl)), tt)

listed_occurrences_linked_example :
    WhereSome
      (λ plan. All (WhereListed plain snapshot plan) plan.occurrences)
      (reconcile plain snapshot)
listed_occurrences_linked_example = listed_occurrences_linked plain snapshot

-- Two snapshots that list two postings and miss an occurrence; another one is stored before it.
abbrev first_miss : ReconciliationInput
first_miss = record snapshot {
  prior_occurrences =
      record known { external_id = "other"; consecutive_omissions = 1; present = false }
      ∷ known
      ∷ [];
}

abbrev second_miss : ReconciliationInput
second_miss = record snapshot {
  snapshot_hash = "h2";
  prior_occurrences = stored_after (reconcile plain first_miss) known ∷ [];
  now = 200;
}

misses-Follows : Follows plain known (first_miss ∷ second_miss ∷ [])
unfolding reconcile lookup put decide_among relevant new_job_notification_event set_all
misses-Follows = (inr (refl, inl (refl, refl)), refl, refl, (inl (refl, refl), refl, refl, tt))

closed_after_two_example :
    (after_snapshots plain (first_miss ∷ second_miss ∷ []) known).occurrence.is_open
    ≡ not (twice_missed false "old" (first_miss ∷ second_miss ∷ []))
closed_after_two_example =
    closed_after_two plain (first_miss ∷ second_miss ∷ []) known refl refl misses-Follows

merged-knows_example :
    All
      (λ o. knows (merged (row_of "list" "a") (row_of "list" "b" ∷ [])) o ≡ true)
      (row_of "list" "a" ∷ row_of "list" "b" ∷ [])
    × TakenFrom
        (λ o. o.first_attached_at)
        (merged (row_of "list" "a") (row_of "list" "b" ∷ [])).first_attached_at
        (row_of "list" "a" ∷ row_of "list" "b" ∷ [])
    × TakenFrom
        (λ o. o.admission)
        (merged (row_of "list" "a") (row_of "list" "b" ∷ [])).admission
        (row_of "list" "a" ∷ row_of "list" "b" ∷ [])
    × (is_exact (merged (row_of "list" "a") (row_of "list" "b" ∷ [])).first_attached_precision
        ≡ any
            (λ o. is_exact o.first_attached_precision)
            (row_of "list" "a" ∷ row_of "list" "b" ∷ []))
merged-knows_example = merged-knows (row_of "list" "a") (row_of "list" "b" ∷ [])

-- What the plan for the snapshot says: the ids of its jobs and which are open, those of the jobs that
-- are announced, and the ids of the occurrences it writes.
abbrev summary : Option Plan → List (String × Bool) × List String × List String
summary none = ([], [], [])
summary (some plan) = (
  map (λ (entry : String × Internship). (entry.0, entry.1.is_open)) plan.jobs,
  map (λ event. event.job_id) plan.notifications,
  map (λ o. o.external_id) plan.occurrences,
)

snapshot_plan : summary (reconcile plain snapshot) ≡ (
  ("job:https://acme.test/1", true) ∷ ("job:https://acme.test/2", false) ∷ [],
  "job:https://acme.test/1" ∷ [],
  "a" ∷ "b" ∷ "old" ∷ [],
)
unfolding reconcile lookup put decide_among relevant new_job_notification_event set_all
snapshot_plan = refl

-- Three listings of the stored job, whose own URL is another: the second has a URL of its own, and
-- the third comes to the job by the URL of the first, as it was before the second was merged.
abbrev of_stored : String → String → ProcessedListing
of_stored id url = record {
  reference = record (row_of "list" id) { apply_url = url };
  listed_identity = none;
  listed_internship = none;
}

abbrev three_listings : ReconciliationInput
three_listings = record snapshot {
  listings = of_stored "a" "u1" ∷ of_stored "b" "u2" ∷ of_stored "c" "u1" ∷ [];
  prior_occurrences = [];
  resolved_jobs = ("a", stored_job) ∷ ("b", stored_job) ∷ [];
}

abbrev listed_ids : Option Plan → List (List (Option String))
listed_ids none = []
listed_ids (some plan) =
    map (λ (entry : String × Internship). map (λ r. r.external_id) entry.1.source_references)
      plan.jobs

-- The reference of the second is lost.
second_reference_lost :
    listed_ids (reconcile plain three_listings) ≡ (some "old" ∷ some "a" ∷ some "c" ∷ []) ∷ []
unfolding reconcile lookup put decide_among relevant new_job_notification_event set_all
second_reference_lost = refl

-- A stored job that comes up again, now with its occurrence known.
abbrev seen_before : ReconciliationInput
seen_before = record snapshot {
  listings = listing_of "list" "old" ∷ [];
  prior_occurrences = known ∷ [];
}

known_stay_quiet_example :
    WhereSome
      (λ plan. (plan.notifications ≡ []) × (plan.new_jobs ≡ []))
      (reconcile plain seen_before)
unfolding lookup set_all put
known_stay_quiet_example = known_stay_quiet plain seen_before refl (("old", refl, refl), tt)
