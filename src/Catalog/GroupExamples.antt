-- ===== src/Catalog/GroupExamples.antt =====
-- The theorem on groups, at five jobs of one company.
use intern_notifs.Base.{
  ℕ, ◌≡◌, refl, String, Bool, true, false, none, some, List, [], ◌∷◌, map, keep, length, ltb,
  if◌then◌else◌, Option,
}
use intern_notifs.Catalog.Types.{Internship}
use intern_notifs.Catalog.Groups.{
  Kind, Shown, is_visible, group_catalog_jobs, employer_release, individual,
}
use intern_notifs.Catalog.Places.{times_in_all}
use intern_notifs.Catalog.Partition.{roles_of, each_job_once}

abbrev seen_at : String → ℕ → Internship
seen_at id time = record {
  job_id = id;
  description = record {
    company = "Acme";
    title = "Intern";
    location = "Boston";
    locations = none;
    compensation = record { raw = ""; has_hourly_maximum = false };
    requirements = none;
  };
  season = "summer-2027";
  apply_url = "";
  normalized_url = "";
  posting_identity = none;
  posting_identity_status = none;
  internship_identity = none;
  application_url_validated_at = none;
  page_metadata_version = none;
  invalid_application_url = none;
  fingerprint = "";
  source_references = [];
  technical = some true;
  is_open = true;
  admission = none;
  first_seen_at = time;
  catalog_visible_at = none;
  catalog_recency = none;
  last_seen_at = time;
  notification = record { sms_pending = false; digest_pending = false };
}

abbrev company_of : Internship → Option String
company_of job = some job.description.company

abbrev no_program : Internship → Option String
no_program job = none

abbrev dated : Internship → Bool
dated job = true

-- Four within eight seconds, one later.
abbrev five_jobs : List Internship
five_jobs =
    seen_at "a" 1000
    ∷ seen_at "b" 60000
    ∷ seen_at "c" 2000
    ∷ seen_at "d" 9000
    ∷ seen_at "e" 3000
    ∷ []

each_job_once_example :
    times_in_all 1 (roles_of (group_catalog_jobs company_of no_program dated false five_jobs))
    ≡ (if ltb 1 (length (keep (is_visible false) five_jobs)) then 1 else 0)
each_job_once_example = each_job_once company_of no_program dated false five_jobs 1

abbrev ids_of : List (Kind × List Shown) → List (Kind × List String)
ids_of groups = map (λ (g : Kind × List Shown). (g.0, map (λ s. s.job.job_id) g.1)) groups

five_grouped :
    ids_of (group_catalog_jobs company_of no_program dated false five_jobs)
    ≡ (employer_release, "a" ∷ "c" ∷ "e" ∷ "d" ∷ []) ∷ (individual, "b" ∷ []) ∷ []
unfolding group_catalog_jobs
five_grouped = refl
