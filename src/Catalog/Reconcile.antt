-- ===== src/Catalog/Reconcile.antt =====
-- src/ingestion/catalog-reconciler.ts: `CatalogReconciler.reconcile`, the plan for one snapshot of one
-- source. `none` is what the code throws where the URL of a listing cannot be read.
use intern_notifs.Base.{
  suc, String, true, false, Option, none, some, List, [], ◌∷◌, ◌++◌, ltb, is_some, get_or, or_else,
  if◌then◌else◌,
}
use intern_notifs.Base.Table.{lookup, put}
use intern_notifs.Base.Sets.{template}
use intern_notifs.Admission.Evidence.{SourceOccurrence}
use intern_notifs.Catalog.Types.{ProcessedListing, Internship, SourceOccurrenceState, Tools}
use intern_notifs.Catalog.Job.{merge, create, close_occurrence}
use intern_notifs.Catalog.Plan.{
  ReconciliationInput, Plan, empty_plan, is_among, marked, when_new, when_filtered,
}
use intern_notifs.Catalog.Listing.{
  prior_by_id, in_snapshot, announcement, seen_again, new_job_notification_event,
  occurrence_changed,
}

module _ (tools : Tools) (input : ReconciliationInput) where
  unfoldable pub noted :
      Option SourceOccurrenceState → SourceOccurrenceState → List SourceOccurrenceState
  unfolding occurrence_changed
  noted prior next = if occurrence_changed tools prior next then next ∷ [] else []

  abbrev by_url :
      ProcessedListing
      → String
      → Internship
      → List (String × Internship)
      → List (String × Internship)
  by_url listing url job table =
      if is_some listing.reference.identity_decision
      then table
      else put (put table job.normalized_url job) url job

  abbrev by_identity :
      ProcessedListing → Internship → List (String × Internship) → List (String × Internship)
  by_identity listing job table = elim listing.listed_identity [
    | none ↦ table
    | some identity ↦ put table identity.canonical_job_id job
  ]

  -- The job that the listing belongs to after it: one of the snapshot, a stored one, or a new one.
  unfoldable pub listed_job : ProcessedListing → String → String → Option Internship → Internship
  unfolding merge create
  listed_job listing external_id url existing =
      let validated_at = lookup input.validated_at external_id in
      let version = lookup input.metadata_validated external_id in
      elim existing [
        | some job ↦ merge tools job listing external_id url input.now validated_at version
        | none ↦ create tools listing external_id url input.now input.baseline validated_at version
      ]

  unfoldable pub with_listing : Plan → ProcessedListing → String → String → Plan
  unfolding listed_job announcement marked seen_again noted
  with_listing plan listing external_id url =
      let stored = lookup input.resolved_jobs external_id in
      let converged = in_snapshot tools input plan listing url stored in
      let merged : Internship = listed_job listing external_id url (or_else converged stored) in
      let what = announcement tools input external_id listing stored converged merged in
      let job : Internship = marked what merged in
      record {
        jobs = put plan.jobs job.job_id job;
        occurrences =
            plan.occurrences
            ++ noted (prior_by_id tools input external_id)
                (seen_again tools input external_id listing job);
        notifications =
            plan.notifications
            ++ when_new what
                (new_job_notification_event tools input.source_id external_id job input.now);
        new_jobs = plan.new_jobs ++ when_new what job;
        filtered_jobs = plan.filtered_jobs ++ when_filtered what job;
        included = external_id ∷ plan.included;
        legacy_by_url = by_url listing url job plan.legacy_by_url;
        by_posting_identity = by_identity listing job plan.by_posting_identity;
      }

  abbrev pub external_id_of : ProcessedListing → String → String
  external_id_of listing url =
      get_or listing.reference.external_id (template (listing.reference.document ∷ ":" ∷ url ∷ []))

  unfoldable pub reconcile_listings : Plan → List ProcessedListing → Option Plan
  unfolding with_listing
  reconcile_listings plan [] = some plan
  reconcile_listings plan (listing ∷ rest) =
      elim (tools.normalize_url listing.reference.apply_url) [
        | none ↦ none
        | some url ↦
            reconcile_listings (with_listing plan listing (external_id_of listing url) url) rest
      ]

  -- An occurrence that the snapshot still has, unchanged.
  unfoldable pub confirmed_again : SourceOccurrenceState → SourceOccurrenceState
  confirmed_again prior = record prior {
    present = true;
    consecutive_omissions = 0;
    changed_snapshot_hash = input.snapshot_hash;
    changed_at = input.now;
  }

  -- One that it misses: the second time in a row the occurrence is closed.
  unfoldable pub omitted : SourceOccurrenceState → SourceOccurrenceState
  omitted prior =
      let closed : SourceOccurrence = record (prior.occurrence) { is_open = false } in
      record prior {
        present = false;
        consecutive_omissions = suc prior.consecutive_omissions;
        changed_snapshot_hash = input.snapshot_hash;
        changed_at = input.now;
        occurrence = if ltb prior.consecutive_omissions 1 then prior.occurrence else closed;
      }

  unfoldable pub closed_jobs :
      List (String × Internship) → SourceOccurrenceState → List (String × Internship)
  unfolding close_occurrence
  closed_jobs jobs next =
      if ltb next.consecutive_omissions 2
      then jobs
      else elim (or_else (lookup jobs next.job_id) (lookup input.resolved_jobs next.external_id)) [
        | none ↦ jobs
        | some job ↦ put jobs job.job_id (close_occurrence tools job next input.now)
      ]

  unfoldable pub with_confirmed : Plan → SourceOccurrenceState → Plan
  unfolding confirmed_again noted
  with_confirmed plan prior = record plan {
    occurrences = plan.occurrences ++ noted (some prior) (confirmed_again prior);
  }

  unfoldable pub with_omitted : Plan → SourceOccurrenceState → Plan
  unfolding omitted closed_jobs
  with_omitted plan prior = record plan {
    occurrences = plan.occurrences ++ omitted prior ∷ [];
    jobs = closed_jobs plan.jobs (omitted prior);
  }

  unfoldable pub with_prior : Plan → SourceOccurrenceState → Plan
  unfolding with_confirmed with_omitted
  with_prior plan prior =
      if is_among prior.external_id plan.included
      then plan
      else if is_among prior.external_id input.active_external_ids
      then with_confirmed plan prior
      else with_omitted plan prior

  unfoldable pub reconcile_priors : Plan → List SourceOccurrenceState → Plan
  unfolding with_prior
  reconcile_priors plan [] = plan
  reconcile_priors plan (prior ∷ rest) = reconcile_priors (with_prior plan prior) rest

  unfoldable pub reconcile : Option Plan
  unfolding reconcile_listings reconcile_priors
  reconcile = elim (reconcile_listings empty_plan input.listings) [
    | none ↦ none
    | some plan ↦ some (reconcile_priors plan input.prior_occurrences)
  ]
