-- ===== src/Catalog/Sound.antt =====
-- src/ingestion/catalog-reconciler.ts: what an open job of a plan has.
use intern_notifs.Base.{
  ℕ, String, ◌≡◌, refl, Bool, true, false, ◌&&◌, ◌||◌, not, Option, none, some, List, [], ◌∷◌, map,
  All, or_else, if◌then◌else◌, if_splits, arith, ltb,
}
use intern_notifs.Base.Table.{lookup, put}
use intern_notifs.Base.Sets.{WhereSome, IsKeyed, put-IsKeyed, put-All, lookup-All}
use intern_notifs.Admission.Evidence.{SourceOccurrence}
use intern_notifs.Catalog.Types.{ProcessedListing, Internship, SourceOccurrenceState, Tools}
use intern_notifs.Catalog.References.{any_open, occurrence_of, stays_open, known_invalid_url}
use intern_notifs.Catalog.Describe.{normalize_reference}
use intern_notifs.Catalog.Job.{merge, create, close_occurrence}
use intern_notifs.Catalog.Plan.{
  ReconciliationInput, Plan, Announcement, silent, announced, promoted, marked,
}
use intern_notifs.Catalog.Listing.{in_snapshot, announcement}
use intern_notifs.Catalog.Reconcile.{
  with_listing, listed_job, reconcile, omitted, closed_jobs, with_confirmed, with_omitted,
}
use intern_notifs.Catalog.Induction.{reconcile-keeps, prior_splits}

-- An open job has an open reference, and its URL is not known to be invalid.
abbrev pub IsSoundJob : Internship → Type 0
IsSoundJob job =
    job.is_open ≡ true
    → (any_open job.source_references ≡ true) × (job.invalid_application_url ≡ none)

any_open-map :
    (tools : Tools) (references : List SourceOccurrence)
    → any_open (map (normalize_reference tools) references) ≡ any_open references
any_open-map tools [] = refl
any_open-map tools (r ∷ rest) = ground (arith, any_open-map tools rest)

open_when :
    (closed kept can has allowed : Bool) (bad : String) (before : Option String)
    → stays_open closed kept can has allowed ≡ true
    → (has ≡ true) × (known_invalid_url closed kept bad before ≡ none)
unfolding stays_open known_invalid_url
open_when closed kept can has allowed bad before h = ground arith

created_open :
    (closed listed allowed : Bool) (bad : String)
    → (not closed && listed && allowed) ≡ true
    → ((listed || false) ≡ true) × ((if closed then some bad else none) ≡ none)
created_open closed listed allowed bad h = ground arith

module _ (tools : Tools) where
  merge-IsSoundJob :
      (job : Internship) (listing : ProcessedListing) (external_id url : String) (now : ℕ)
      (validated_at version : Option ℕ)
      → IsSoundJob (merge tools job listing external_id url now validated_at version)
  unfolding merge
  merge-IsSoundJob job listing external_id url now validated_at version h =
      rw (any_open-map tools _) (open_when _ _ _ _ _ url job.invalid_application_url h)

  create-IsSoundJob :
      (listing : ProcessedListing) (external_id url : String) (now : ℕ) (baseline : Bool)
      (validated_at version : Option ℕ)
      → IsSoundJob (create tools listing external_id url now baseline validated_at version)
  unfolding create occurrence_of
  create-IsSoundJob listing external_id url now baseline validated_at version h =
      created_open _ _ _ url h

  close_occurrence-IsSoundJob :
      (job : Internship) (state : SourceOccurrenceState) (now : ℕ)
      → IsSoundJob job
      → IsSoundJob (close_occurrence tools job state now)
  unfolding close_occurrence
  close_occurrence-IsSoundJob job state now sound h = (ground arith, ground (arith, sound))

marked-IsSoundJob :
    (what : Announcement) (job : Internship) → IsSoundJob job → IsSoundJob (marked what job)
unfolding marked
marked-IsSoundJob silent job h = h
marked-IsSoundJob Announcement.filtered job h = h
marked-IsSoundJob announced job h = h
marked-IsSoundJob promoted job h = h

-- The jobs of a table are sound, and each is there under its id.
abbrev pub AllSound : List (String × Internship) → Type 0
AllSound jobs = IsKeyed (λ job. job.job_id) jobs × All (λ entry. IsSoundJob entry.1) jobs

put-AllSound :
    (jobs : List (String × Internship)) (job : Internship)
    → AllSound jobs
    → IsSoundJob job
    → AllSound (put jobs job.job_id job)
put-AllSound jobs job h k =
    (put-IsKeyed (λ j. j.job_id) jobs job h.0, put-All IsSoundJob jobs job.job_id job h.1 k)

either :
    {A : Type 0}
    → (P : A → Type 0) (a b : Option A) → WhereSome P a
    → WhereSome P b
    → WhereSome P (or_else a b)
either P none b h k = k
either P (some x) b h k = h

module _ (tools : Tools) (input : ReconciliationInput) where
  listed_job-IsSoundJob :
      (listing : ProcessedListing) (external_id url : String) (existing : Option Internship)
      → IsSoundJob (listed_job tools input listing external_id url existing)
  unfolding listed_job
  listed_job-IsSoundJob listing external_id url none =
      create-IsSoundJob tools listing external_id url input.now input.baseline
        (lookup input.validated_at external_id) (lookup input.metadata_validated external_id)
  listed_job-IsSoundJob listing external_id url (some job) =
      merge-IsSoundJob tools job listing external_id url input.now
        (lookup input.validated_at external_id) (lookup input.metadata_validated external_id)

  with_listing-AllSound :
      (plan : Plan) (listing : ProcessedListing) (external_id url : String)
      → AllSound plan.jobs
      → AllSound (with_listing tools input plan listing external_id url).jobs
  unfolding with_listing
  with_listing-AllSound plan listing external_id url h =
      let stored = lookup input.resolved_jobs external_id in
      let converged = in_snapshot tools input plan listing url stored in
      let existing = or_else converged stored in
      let merged : Internship = listed_job tools input listing external_id url existing in
      let what = announcement tools input external_id listing stored converged merged in
      put-AllSound plan.jobs (marked what merged) h
        (marked-IsSoundJob what merged (listed_job-IsSoundJob listing external_id url existing))

  module _ (resolved : All (λ entry. IsSoundJob entry.1) input.resolved_jobs) where
    close-AllSound :
        (jobs : List (String × Internship)) (state : SourceOccurrenceState)
        (found : Option Internship)
        → AllSound jobs
        → WhereSome IsSoundJob found
        → AllSound (elim found [
          | none ↦ jobs
          | some job ↦ put jobs job.job_id (close_occurrence tools job state input.now)
        ])
    unfolding close_occurrence
    close-AllSound jobs state none h k = h
    close-AllSound jobs state (some job) h k =
        put-AllSound jobs (close_occurrence tools job state input.now) h
          (close_occurrence-IsSoundJob tools job state input.now k)

    with_omitted-AllSound :
        (plan : Plan) (prior : SourceOccurrenceState)
        → AllSound plan.jobs
        → AllSound (with_omitted tools input plan prior).jobs
    unfolding with_omitted closed_jobs omitted
    with_omitted-AllSound plan prior h =
        let next = omitted tools input prior in
        if_splits AllSound (ltb next.consecutive_omissions 2) plan.jobs
          (elim (or_else (lookup plan.jobs prior.job_id)
            (lookup input.resolved_jobs prior.external_id)) [
              | none ↦ plan.jobs
              | some job ↦ put plan.jobs job.job_id (close_occurrence tools job next input.now)
            ])
          (λ e. h)
          (λ e.
            close-AllSound plan.jobs next
              (or_else (lookup plan.jobs prior.job_id)
                (lookup input.resolved_jobs prior.external_id))
              h
              (either IsSoundJob _ _ (lookup-All IsSoundJob plan.jobs prior.job_id h.1)
                (lookup-All IsSoundJob input.resolved_jobs prior.external_id resolved)))

    -- Where every stored job that is open has an open reference and no URL known to be invalid, so has
    -- every open job of the plan, and the plan has each job under its own id.
    pub open_jobs_sound : WhereSome (λ plan. AllSound plan.jobs) (reconcile tools input)
    unfolding with_confirmed
    open_jobs_sound =
        reconcile-keeps tools input (λ plan. AllSound plan.jobs) (tt, tt) with_listing-AllSound
          (λ plan prior h.
            prior_splits tools input (λ plan. AllSound plan.jobs) plan prior (λ e. h) (λ e. h)
              (λ e. with_omitted-AllSound plan prior h))
