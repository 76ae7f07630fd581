-- ===== src/Catalog/Announced.antt =====
-- src/ingestion/catalog-reconciler.ts: which jobs are announced.
use intern_notifs.Base.{
  ◌≢◌, false, some, String, ◌≡◌, refl, Bool, true, ◌&&◌, ◌||◌, not, Option, List, [], ◌∷◌, ◌++◌,
  is_some, or_else, if◌then◌else◌, if_splits, arith,
}
use intern_notifs.Base.Table.{lookup}
use intern_notifs.Base.Sets.{WhereSome}
use intern_notifs.Catalog.Types.{
  IdentityStatus, ProcessedListing, Internship, SourceOccurrenceState, NotificationEvent, Tools,
}
use intern_notifs.Catalog.Induction.{reconcile-keeps, prior_splits}
use intern_notifs.Catalog.Plan.{
  alerts, is_among, ReconciliationInput, Plan, Announcement, silent, announced, promoted, marked,
  when_new,
}
use intern_notifs.Catalog.Listing.{
  delivery_allowed, announcement, in_snapshot, new_job_notification_event, delayed_promotion,
  retrying_uncommitted_create,
}
use intern_notifs.Catalog.Reconcile.{
  with_listing, listed_job, with_prior, with_confirmed, with_omitted, reconcile,
}

-- Are there as many, each for the other in turn?
abbrev pub Pairwise : {A : Type 0} {B : Type 0} → (A → B → Type 0) → List A → List B → Type 0
Pairwise P [] [] = Unit
Pairwise P (a ∷ xs) (b ∷ bs) = P a b × Pairwise P xs bs
Pairwise P _ _ = ⊥

pub Pairwise-append :
    {A : Type 0} {B : Type 0} (P : A → B → Type 0) (xs cs : List A) (bs ds : List B)
    → Pairwise P xs bs
    → Pairwise P cs ds
    → Pairwise P (xs ++ cs) (bs ++ ds)
Pairwise-append P [] cs [] ds h k = k
Pairwise-append P [] cs (b ∷ bs) ds h k = elim h [ ]
Pairwise-append P (a ∷ xs) cs [] ds h k = elim h [ ]
Pairwise-append P (a ∷ xs) cs (b ∷ bs) ds h k = (h.0, Pairwise-append P xs cs bs ds h.1 k)

and_left : (a b : Bool) → (a && b) ≡ true → a ≡ true
and_left a b h = ground arith

module _ (tools : Tools) (input : ReconciliationInput) where
  -- What a job must be before it is announced for an occurrence.
  abbrev pub IsDeliverable : String → Internship → Type 0
  IsDeliverable external_id job =
      (input.baseline ≡ false)
      × (job.is_open ≡ true)
      × (job.technical ≡ some true)
      × (tools.matches_filter job.description job.season ≡ true)
      × (alerts job.admission ≢ some false)
      × (job.posting_identity_status ≡ some IdentityStatus.unconfirmed
          → input.publish_unconfirmed ≢ some false)
      × ((ids : List String) → input.alert_eligible ≡ some ids → is_among external_id ids ≡ true)

  allowed_when :
      (external_id : String) (job : Internship)
      → delivery_allowed tools input external_id job ≡ true
      → IsDeliverable external_id job
  unfolding delivery_allowed
  allowed_when external_id job h = (
    ground arith,
    ground arith,
    ground arith,
    ground arith,
    (λ e. ground (arith, e)),
    (λ e e2. ground (arith, e, e2)),
    (λ ids e. ground (arith, e)),
  )

  -- The event of a job: it is that job's, it tells its source, and the job may be delivered.
  abbrev pub Announces : NotificationEvent → Internship → Type 0
  Announces event job =
      (event ≡ new_job_notification_event tools input.source_id event.external_id job input.now)
      × IsDeliverable event.external_id job

  ByAnnouncement : String → Internship → Announcement → Type 0
  unfolding marked
  ByAnnouncement external_id merged what =
      Pairwise Announces
        (when_new what (
          new_job_notification_event tools input.source_id external_id (marked what merged)
            input.now))
        (when_new what (marked what merged))

  marked_when_allowed :
      (external_id : String) (listing : ProcessedListing) (stored converged : Option Internship)
      (merged : Internship)
      → ByAnnouncement external_id merged
          (announcement tools input external_id listing stored converged merged)
  unfolding ByAnnouncement announcement marked new_job_notification_event delivery_allowed
  marked_when_allowed external_id listing stored converged merged =
      let allowed = delivery_allowed tools input external_id merged in
      let late = delayed_promotion tools input external_id listing merged in
      if_splits (ByAnnouncement external_id merged)
        (not (is_some (or_else converged stored))
          || retrying_uncommitted_create tools input external_id stored converged)
        (if allowed then announced else Announcement.filtered)
        (if allowed && late then promoted else silent)
        (λ fresh.
          if_splits (ByAnnouncement external_id merged) allowed announced Announcement.filtered
            (λ h. ((refl, allowed_when external_id merged h), tt)) (λ h. tt))
        (λ known.
          if_splits (ByAnnouncement external_id merged) (allowed && late) promoted silent
            (λ h. ((refl, allowed_when external_id merged (and_left allowed late h)), tt))
            (λ h. tt))

  abbrev Told : Plan → Type 0
  Told plan = Pairwise Announces plan.notifications plan.new_jobs

  told_listing :
      (plan : Plan) (listing : ProcessedListing) (external_id url : String)
      → Told plan
      → Told (with_listing tools input plan listing external_id url)
  unfolding with_listing ByAnnouncement
  told_listing plan listing external_id url h =
      let stored = lookup input.resolved_jobs external_id in
      let converged = in_snapshot tools input plan listing url stored in
      let merged : Internship =
        listed_job tools input listing external_id url (or_else converged stored) in
      Pairwise-append Announces _ _ _ _ h
        (marked_when_allowed external_id listing stored converged merged)

  told_prior :
      (plan : Plan) (prior : SourceOccurrenceState)
      → Told plan
      → Told (with_prior tools input plan prior)
  unfolding with_confirmed with_omitted
  told_prior plan prior h = prior_splits tools input Told plan prior (λ e. h) (λ e. h) (λ e. h)

  -- The events of a plan belong to its new jobs, one to one and in order, and each is the event of
  -- its job, which may be delivered: not in a baseline, with an open, technical and admitted job that
  -- passes the filter and, where a list of those that may alert is given, for an occurrence on it.
  pub announced_when_allowed : WhereSome Told (reconcile tools input)
  unfolding told_listing
  announced_when_allowed = reconcile-keeps tools input Told tt told_listing told_prior
