-- ===== src/Catalog/Describe.antt =====
-- src/ingestion/catalog-reconciler.ts, src/catalog-quality.ts, src/sources/provenance.ts: how a job is
-- described by its references and its listing.
use intern_notifs.Base.{
  ℕ, String, Bool, true, false, ◌&&◌, ◌||◌, not, Option, none, some, List, map, any, or_else,
  str_eq, if◌then◌else◌,
}
use intern_notifs.Admission.Evidence.{
  CatalogAdmission, Description, JobRequirements, SourceOccurrence, official_ats,
  official_structured,
}
use intern_notifs.Catalog.Types.{InternshipIdentity, ProcessedListing, Internship, Tools}
use intern_notifs.Catalog.References.{first_text, is_explicit}

abbrev pub requires : (JobRequirements → Bool) → Description → Bool
requires what d = elim d.requirements [ none ↦ false | some r ↦ what r ]

abbrev pub merged_requirements : Description → Description → JobRequirements
merged_requirements existing listing = record {
  requires_us_citizenship =
      requires (λ r. r.requires_us_citizenship) listing
      || requires (λ r. r.requires_us_citizenship) existing;
  advanced_degree_required =
      requires (λ r. r.advanced_degree_required) listing
      || requires (λ r. r.advanced_degree_required) existing;
}

module _ (tools : Tools) where
  abbrev pub normalize_reference : SourceOccurrence → SourceOccurrence
  normalize_reference r = record r { description = tools.tidy r.description }

  abbrev pub normalize_listing : ProcessedListing → ProcessedListing
  normalize_listing listing = record listing { reference = normalize_reference listing.reference }

  abbrev pub normalize_internship : Internship → Internship
  normalize_internship job =
      let tidied = tools.tidy job.description in
      record job {
        description = tidied;
        source_references = map normalize_reference job.source_references;
        fingerprint = tools.make_fingerprint tidied job.season;
      }

  abbrev pub project_role_metadata : Internship → Internship
  project_role_metadata job = record job { description = tools.project job }

  abbrev pub generic_location : String → Bool
  generic_location value = str_eq value "" || tools.is_generic_location value

  abbrev pub is_official_occurrence : SourceOccurrence → Bool
  is_official_occurrence r = elim r.provenance [
    | some official_ats ↦ true
    | some official_structured ↦ true
    | some _ ↦ false
    | none ↦ tools.is_registered_official r.source_id
  ]

  abbrev pub season_allows_open :
      String → Option InternshipIdentity → List SourceOccurrence → ℕ → Bool
  season_allows_open season identity references now =
      not (tools.is_past_season season now)
      || is_explicit identity && any (λ r. r.is_open && is_official_occurrence r) references

  abbrev pub merged_description : Bool → Description → Description → Description
  merged_description prefer_incoming e l =
      let use_incoming =
        generic_location e.location || not (generic_location l.location) && prefer_incoming in
      record {
        company =
            if prefer_incoming
            then first_text l.company e.company
            else first_text e.company l.company;
        title = if prefer_incoming then first_text l.title e.title else first_text e.title l.title;
        location = if use_incoming then first_text l.location e.location else e.location;
        locations =
            if use_incoming
            then or_else l.locations e.locations
            else or_else e.locations l.locations;
        compensation = if l.compensation.has_hourly_maximum then l.compensation else e.compensation;
        requirements = some (merged_requirements e l);
      }

  abbrev pub named_by : Option CatalogAdmission → Description → Description
  named_by none d = d
  named_by (some a) d = elim a.canonical_employer [
    | none ↦ d
    | some employer ↦ record d { company = employer.display_name }
  ]
