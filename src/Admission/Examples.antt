-- ===== src/Admission/Examples.antt =====
-- The theorems on admissions, at one posting of one employer.
use intern_notifs.Base.{
  ℕ, ◌+◌, ◌<◌, ◌≡◌, ◌⊎◌, refl, String, Bool, true, false, none, some, [], ◌∷◌, arith, units,
  is_some,
}
use intern_notifs.Admission.Evidence.{
  posting_detail, unresolved, CanonicalEmployer, DestinationEvidence, CatalogAdmission,
  SourceOccurrence, official_ats, MetadataCompleteness, TitleState, LocationState,
}
use intern_notifs.Admission.Metadata.{metadata_reasons}
use intern_notifs.Admission.Evaluate.{
  Listing, Evaluation, evaluate_catalog_admission, exact_role_destination, is_inconclusive,
  verified_at, label_is_generic, evidence_ttl_ms, is_eligible, final_reasons, reasons, in_grace,
  grace_end, last_successful_verification,
}
use intern_notifs.Admission.Deadlines.{catalog_eligible, alert_eligible, freshness_deadlines}
use intern_notifs.Admission.Derive.{derive_canonical_admission}
use intern_notifs.Admission.Canonical.{admits, canonical_admits}
use intern_notifs.Admission.Sound.{given_metadata, admission_sound}
use intern_notifs.Admission.Grace.{evaluations, retries_extend_nothing}

abbrev never : String → Bool
never label = false

abbrev acme : CanonicalEmployer
acme = record { id = "acme"; display_name = "Acme" }

abbrev whole : MetadataCompleteness
whole = record {
  is_complete = true;
  title = TitleState.complete;
  location = LocationState.not_specified;
}

abbrev page : ℕ → DestinationEvidence
page now = record {
  classification = posting_detail;
  candidate_url = "https://acme.test/1";
  final_url = none;
  provider = "lever";
  tenant = some "acme";
  expected_posting_id = some "1";
  inspected_at = some now;
  valid_through = none;
  fresh_until = none;
  last_known_good_at = none;
  browser_visible = none;
}

abbrev intern_listing : Listing
intern_listing = record {
  employer = some acme;
  company = "Acme";
  metadata_completeness = some whole;
  title = units "Intern";
  locations = [];
  title_repaired = false;
}

abbrev seen : ℕ → Evaluation
seen now = record {
  listing = intern_listing;
  destination = page now;
  posting_attributed = true;
  evaluated_at = now;
  trusted_community = none;
}

abbrev unread : ℕ → Evaluation
unread now = record (seen now) { destination = record (page now) { classification = unresolved } }

abbrev first_decision : CatalogAdmission
first_decision = evaluate_catalog_admission never (seen 1000) none

retries_extend_nothing_example :
    (catalog_eligible
        (some (evaluations never first_decision (unread 2000 ∷ unread 9000 ∷ [])))
        604801000
      ≡ false)
    × (alert_eligible
          (some (evaluations never first_decision (unread 2000 ∷ unread 9000 ∷ [])))
          604801000
        ≡ false)
unfolding evaluate_catalog_admission verified_at
retries_extend_nothing_example =
    retries_extend_nothing never first_decision (unread 2000 ∷ unread 9000 ∷ []) 604801000 refl refl
      (omega arith)

-- Until then the posting stays in the catalog, and raises no alerts.
still_listed :
    catalog_eligible
      (some (evaluations never first_decision (unread 2000 ∷ unread 9000 ∷ [])))
      604800999
    ≡ true
unfolding evaluations evaluate_catalog_admission verified_at catalog_eligible is_eligible
    final_reasons reasons in_grace grace_end last_successful_verification label_is_generic
    metadata_reasons freshness_deadlines
still_listed = refl

admission_sound_example :
    ((metadata_reasons (given_metadata never (seen 1000)) ≡ [])
      × (label_is_generic never intern_listing ≡ false)
      × ((true ≡ true) ⊎ (is_some (seen 1000).trusted_community ≡ true))
      × ((is_some intern_listing.employer ≡ true) ⊎ (is_some (seen 1000).trusted_community ≡ true)))
    × ((exact_role_destination (page 1000) ≡ true)
        ⊎ ((is_inconclusive (page 1000) ≡ true)
            × (is_some (seen 1000).trusted_community ≡ false)
            × (t : ℕ) × (verified_at (seen 1000) none ≡ some t)
            × (1000 < t + evidence_ttl_ms)))
    × ((evaluate_catalog_admission never (seen 1000) none).alert_eligible ≡ true
        → exact_role_destination (page 1000) ≡ true)
unfolding evaluate_catalog_admission is_eligible final_reasons reasons in_grace grace_end
    label_is_generic metadata_reasons
admission_sound_example = admission_sound never (seen 1000) none refl

abbrev reference : SourceOccurrence
reference = record {
  source_id = "lever-acme";
  external_id = some "1";
  document = "postings";
  row = 1;
  provenance = some official_ats;
  provider_evidence = none;
  identity_decision = none;
  alert_qualification = none;
  technical = some true;
  description = record {
    company = "Acme";
    title = "Intern";
    location = "Remote";
    locations = none;
    compensation = record { raw = ""; has_hourly_maximum = false };
    requirements = none;
  };
  season = "summer-2027";
  apply_url = "https://acme.test/1";
  is_open = true;
  admission = some first_decision;
  first_attached_at = none;
  first_attached_precision = none;
}

abbrev alike : SourceOccurrence → SourceOccurrence → Bool
alike a b = false

canonical_admits_example :
    elim (derive_canonical_admission alike (reference ∷ []) 5000) [
      | none ↦ false
      | some a ↦ a.catalog_eligible
    ]
    ≡ admits alike (reference ∷ [])
canonical_admits_example = canonical_admits alike (reference ∷ []) 5000
