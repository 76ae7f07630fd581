-- ===== src/Catalog/Listing.antt =====
-- src/ingestion/catalog-reconciler.ts: what is decided on one listing of a snapshot.
use intern_notifs.Base.{
  ℕ, String, Bool, true, false, ◌&&◌, ◌||◌, not, Option, none, some, [], ◌∷◌, ◌==◌, is_some, get_or,
  or_else, str_eq, if◌then◌else◌,
}
use intern_notifs.Base.Table.{lookup}
use intern_notifs.Base.Sets.{template, set_all}
use intern_notifs.Admission.Evidence.{SourceOccurrence}
use intern_notifs.Catalog.Types.{
  ProcessedListing, Internship, SourceOccurrenceState, NotificationEvent, Tools,
}
use intern_notifs.Catalog.Occurrence.{merge_source_occurrence}
use intern_notifs.Catalog.References.{occurrence_of}
use intern_notifs.Catalog.Plan.{
  ReconciliationInput, Plan, bool_eq, is_among, alerts, should_promote_delayed_notification,
  Announcement, is_unpublished, is_eligible_by_trust, suppression, attached_since,
  attachment_precision, observation_precision, observed_since, silent, announced, promoted,
}

module _ (tools : Tools) where
  unfoldable pub new_job_notification_event : String → String → Internship → ℕ → NotificationEvent
  new_job_notification_event source_id external_id job now = record {
    event_id =
        tools.event_hash (template ("posting-observation-v2|" ∷ job.job_id ∷ "|new-job" ∷ []));
    source_id = source_id;
    external_id = external_id;
    job_id = job.job_id;
    created_at = now;
  }

  unfoldable pub occurrence_changed : Option SourceOccurrenceState → SourceOccurrenceState → Bool
  occurrence_changed none next = true
  occurrence_changed (some prior) next =
      not (bool_eq prior.present next.present)
      || not (prior.consecutive_omissions == next.consecutive_omissions)
      || not (str_eq prior.job_id next.job_id)
      || not (tools.same_json prior.occurrence next.occurrence)

  module _ (input : ReconciliationInput) where
    abbrev pub prior_by_id : String → Option SourceOccurrenceState
    prior_by_id id = lookup (set_all (λ p. p.external_id) [] input.prior_occurrences) id

    unfoldable pub delivery_allowed : String → Internship → Bool
    delivery_allowed external_id job =
        not input.baseline
        && job.is_open
        && get_or job.technical false
        && tools.matches_filter job.description job.season
        && get_or (alerts job.admission) true
        && not (is_unpublished job && not (get_or input.publish_unconfirmed true))
        && elim input.alert_eligible [ none ↦ true | some ids ↦ is_among external_id ids ]

    abbrev pub in_snapshot :
        Plan → ProcessedListing → String → Option Internship → Option Internship
    in_snapshot plan listing url stored =
        or_else (elim stored [ none ↦ none | some job ↦ lookup plan.jobs job.job_id ])
          (or_else
            (elim listing.listed_identity [
              | none ↦ none
              | some identity ↦ lookup plan.by_posting_identity identity.canonical_job_id
            ])
            (if is_some listing.reference.identity_decision
              then none
              else lookup plan.legacy_by_url url))

    -- Was the job stored by an earlier run that did not finish?
    abbrev pub retrying_uncommitted_create : String → Option Internship → Option Internship → Bool
    retrying_uncommitted_create external_id stored converged = elim stored [
      | none ↦ false
      | some job ↦
          not (is_some converged)
          && not (is_some (prior_by_id external_id))
          && elim job.source_references [
            | r ∷ [] ↦
                str_eq r.source_id input.source_id
                && elim r.external_id [ none ↦ false | some id ↦ str_eq id external_id ]
            | _ ↦ false
          ]
    ]

    unfoldable pub delayed_promotion : String → ProcessedListing → Internship → Bool
    unfolding should_promote_delayed_notification
    delayed_promotion external_id listing job =
        input.trusted_alerts
        && is_eligible_by_trust listing.reference.alert_qualification
        && should_promote_delayed_notification
            (elim (prior_by_id external_id) [
              | none ↦ none
              | some prior ↦ alerts prior.occurrence.admission
            ])
            (alerts listing.reference.admission) (alerts job.admission)
            (suppression listing.reference.alert_qualification)

    unfoldable pub announcement :
        String
        → ProcessedListing
        → Option Internship
        → Option Internship
        → Internship
        → Announcement
    unfolding delivery_allowed delayed_promotion
    announcement external_id listing stored converged job =
        if not (is_some (or_else converged stored))
          || retrying_uncommitted_create external_id stored converged
        then if delivery_allowed external_id job then announced else Announcement.filtered
        else if delivery_allowed external_id job && delayed_promotion external_id listing job
        then promoted
        else silent

    unfoldable pub seen_again : String → ProcessedListing → Internship → SourceOccurrenceState
    unfolding occurrence_of merge_source_occurrence
    seen_again external_id listing job =
        let prior = prior_by_id external_id in
        let attached : SourceOccurrence = record (occurrence_of listing external_id) {
          first_attached_at = some (attached_since prior input.now);
          first_attached_precision = some (attachment_precision prior);
        } in
        record {
          source_id = input.source_id;
          external_id = external_id;
          job_id = job.job_id;
          occurrence =
              merge_source_occurrence (elim prior [ none ↦ none | some p ↦ some p.occurrence ])
                attached;
          present = true;
          consecutive_omissions = 0;
          changed_snapshot_hash = input.snapshot_hash;
          changed_at = input.now;
          first_observed_at = observed_since prior input.now;
          first_observed_precision = observation_precision prior;
        }
