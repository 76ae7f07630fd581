-- ===== src/Trust/Examples.antt =====
-- The theorems on trusted community sources, at one posting.
use intern_notifs.Base.{
  ℕ, ◌≡◌, ◌≢◌, ◌⊎◌, refl, String, true, false, Option, none, some, [], ◌∷◌, if◌then◌else◌, str_eq,
}
use intern_notifs.Admission.Evidence.{
  AlertMode, QualificationStatus, DestinationEvidence, application_form,
}
use intern_notifs.Catalog.Types.{ProcessedListing, Tools}
use intern_notifs.Catalog.Plan.{ReconciliationInput}
use intern_notifs.Catalog.Job.{create}
use intern_notifs.Catalog.Listing.{delayed_promotion}
use intern_notifs.Trust.Qualification.{
  Assessment, posting_specific_destination, is_exact_identity, candidate_of,
  advance_trusted_community_qualification,
}
use intern_notifs.Trust.Streak.{qualified}
use intern_notifs.Trust.Alerts.{
  TwoSnapshots, eligible_means, suppressed_never_promoted, two_snapshots_qualify,
}

abbrev same : String → String
same url = url

abbrev readable : String → Option String
readable url = if str_eq url "" then none else some url

abbrev form : DestinationEvidence
form = record {
  classification = application_form;
  candidate_url = "https://acme.test/1";
  final_url = none;
  provider = "unknown";
  tenant = none;
  expected_posting_id = none;
  inspected_at = none;
  valid_through = none;
  fresh_until = none;
  last_known_good_at = none;
  browser_visible = none;
}

abbrev fetched : ℕ → Assessment
fetched n = record {
  destination = form;
  identity_decision = none;
  alert_mode = AlertMode.exact_identity_or_two_complete_snapshots;
  complete_fetch_sequence = some n;
  suppress_baseline = none;
  suppress_publication = none;
}

abbrev backlog : ℕ → Assessment
backlog n = record (fetched n) { suppress_baseline = some true }

two_snapshots_qualify_example :
    (advance_trusted_community_qualification readable same
      (qualified readable same (fetched 7 ∷ fetched 3 ∷ []))
      (fetched 8)).status
    ≡ QualificationStatus.eligible
two_snapshots_qualify_example =
    two_snapshots_qualify readable same 7 (fetched 7) (fetched 8) (fetched 3 ∷ []) refl refl refl
      refl refl refl refl

eligible_means_example :
    ((fetched 8).alert_mode ≢ AlertMode.disabled)
    × (posting_specific_destination form ≡ true)
    × ((is_exact_identity none ≡ true)
        ⊎ TwoSnapshots readable same
            (candidate_of readable same (fetched 8))
            (fetched 8 ∷ fetched 7 ∷ []))
unfolding qualified
eligible_means_example = eligible_means readable same (fetched 8) (fetched 7 ∷ []) refl

-- A snapshot in between that misses the posting starts the count again.
gap_is_pending :
    (advance_trusted_community_qualification readable same
      (qualified readable same (fetched 7 ∷ []))
      (fetched 9)).status
    ≡ QualificationStatus.pending
unfolding qualified
gap_is_pending = refl

abbrev plain : Tools
plain = record {
  tidy = λ d. d;
  project = λ job. job.description;
  normalize_url = readable;
  make_fingerprint = λ d season. season;
  url_job_id = λ url key. url;
  occurrence_job_id = λ source id. id;
  is_technical = λ listing. true;
  matches_filter = λ d season. true;
  is_past_season = λ season now. false;
  is_generic_location = λ place. false;
  is_registered_official = λ source. false;
  disagree = λ a b. false;
  event_hash = same;
  same_json = λ a b. false;
}

abbrev listing : ProcessedListing
listing = record {
  reference = record {
    source_id = "simplify-summer-2026";
    external_id = some "1";
    document = "README.md";
    row = 1;
    provenance = none;
    provider_evidence = none;
    identity_decision = none;
    alert_qualification = qualified readable same (fetched 8 ∷ backlog 7 ∷ []);
    technical = none;
    description = record {
      company = "Acme";
      title = "Intern";
      location = "Boston";
      locations = none;
      compensation = record { raw = ""; has_hourly_maximum = false };
      requirements = none;
    };
    season = "summer-2027";
    apply_url = "https://acme.test/1";
    is_open = true;
    admission = none;
    first_attached_at = none;
    first_attached_precision = none;
  };
  listed_identity = none;
  listed_internship = none;
}

abbrev snapshot : ReconciliationInput
snapshot = record {
  source_id = "simplify-summer-2026";
  snapshot_hash = "h";
  active_external_ids = "1" ∷ [];
  listings = listing ∷ [];
  prior_occurrences = [];
  resolved_jobs = [];
  now = 100;
  baseline = false;
  validated_at = [];
  metadata_validated = [];
  alert_eligible = none;
  publish_unconfirmed = none;
  trusted_alerts = true;
}

suppressed_never_promoted_example :
    delayed_promotion plain snapshot "1" listing
      (create plain listing "1" "https://acme.test/1" 100 false none none)
    ≡ false
suppressed_never_promoted_example =
    suppressed_never_promoted readable same plain snapshot "1" listing
      (create plain listing "1" "https://acme.test/1" 100 false none none)
      (fetched 8 ∷ backlog 7 ∷ []) refl refl
