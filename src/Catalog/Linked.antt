-- ===== src/Catalog/Linked.antt =====
-- src/ingestion/catalog-reconciler.ts: the jobs that the planned occurrences name.
use mathlib.Core.Bool.{true≢false}
use intern_notifs.Base.{
  sym, ◌∙◌, String, ◌≡◌, refl, true, false, Option, none, some, List, [], ◌∷◌, ◌++◌, All, is_some,
  or_else, if_splits, arith, ltb, eq_iff,
}
use intern_notifs.Base.Table.{lookup, put, lookup-put}
use intern_notifs.Base.Sets.{WhereSome}
use intern_notifs.Catalog.Types.{ProcessedListing, Internship, SourceOccurrenceState, Tools}
use intern_notifs.Catalog.Job.{close_occurrence}
use intern_notifs.Catalog.Plan.{ReconciliationInput, Plan, is_among, marked}
use intern_notifs.Catalog.Listing.{
  in_snapshot, announcement, seen_again, prior_by_id, occurrence_changed,
}
use intern_notifs.Catalog.Reconcile.{
  with_listing, listed_job, reconcile, omitted, confirmed_again, closed_jobs, with_confirmed,
  with_omitted, noted,
}
use intern_notifs.Catalog.Induction.{reconcile-passes, prior_splits}

All-append {ℓ} :
    {A : Type ℓ} (P : A → Type 0) (xs ys : List A) → All P xs → All P ys → All P (xs ++ ys)
All-append P [] ys h k = k
All-append P (x ∷ xs) ys h k = (h.0, All-append P xs ys h.1 k)

All-implied {ℓ} :
    {A : Type ℓ} (P Q : A → Type 0) (xs : List A) → ((a : A) → P a → Q a) → All P xs → All Q xs
All-implied P Q [] f h = tt
All-implied P Q (x ∷ xs) f h = (f x h.0, All-implied P Q xs f h.1)

module _ (tools : Tools) (input : ReconciliationInput) where
  -- An occurrence that the snapshot lists: it is there, of this source, and its job is in the plan.
  abbrev pub IsLinked : List (String × Internship) → SourceOccurrenceState → Type 0
  IsLinked jobs o =
      (is_some (lookup jobs o.job_id) ≡ true)
      × (o.source_id ≡ input.source_id)
      × (o.present ≡ true)
      × (o.consecutive_omissions ≡ 0)

  put-IsLinked :
      (jobs : List (String × Internship)) (job : Internship)
      (occurrences : List SourceOccurrenceState)
      → All (IsLinked jobs) occurrences
      → All (IsLinked (put jobs job.job_id job)) occurrences
  put-IsLinked jobs job occurrences =
      All-implied (IsLinked jobs) (IsLinked (put jobs job.job_id job)) occurrences
        (λ o h. (ground (arith, h.0, lookup-put jobs o.job_id job.job_id job), h.1, h.2, h.3))

  noted-All :
      (P : SourceOccurrenceState → Type 0) (prior : Option SourceOccurrenceState)
      (next : SourceOccurrenceState)
      → P next
      → All P (noted tools input prior next)
  unfolding noted
  noted-All P prior next h =
      if_splits (All P) (occurrence_changed tools prior next) (next ∷ []) [] (λ e. (h, tt))
        (λ e. tt)

  abbrev Linked : Plan → Type 0
  Linked plan = All (IsLinked plan.jobs) plan.occurrences

  with_listing-Linked :
      (plan : Plan) (listing : ProcessedListing) (external_id url : String)
      → Linked plan
      → Linked (with_listing tools input plan listing external_id url)
  unfolding with_listing seen_again
  with_listing-Linked plan listing external_id url h =
      let stored = lookup input.resolved_jobs external_id in
      let converged = in_snapshot tools input plan listing url stored in
      let merged : Internship =
        listed_job tools input listing external_id url (or_else converged stored) in
      let what = announcement tools input external_id listing stored converged merged in
      let job : Internship = marked what merged in
      All-append (IsLinked (put plan.jobs job.job_id job)) plan.occurrences
        (noted tools input (prior_by_id tools input external_id)
          (seen_again tools input external_id listing job))
        (put-IsLinked plan.jobs job plan.occurrences h)
        (noted-All (IsLinked (put plan.jobs job.job_id job)) (prior_by_id tools input external_id)
          (seen_again tools input external_id listing job)
          (
            ground (
              arith,
              lookup-put plan.jobs job.job_id job.job_id job,
              eq_iff job.job_id job.job_id,
            ),
            refl,
            refl,
            refl,
          ))

  abbrev pub WhereIncluded : Plan → SourceOccurrenceState → Type 0
  WhereIncluded plan o = is_among o.external_id plan.included ≡ true → IsLinked plan.jobs o

  found-kept :
      (jobs : List (String × Internship)) (next : SourceOccurrenceState) (found : Option Internship)
      (k : String)
      → is_some (lookup jobs k) ≡ true
      → is_some (
          lookup
            (elim found [
              | none ↦ jobs
              | some job ↦ put jobs job.job_id (close_occurrence tools job next input.now)
            ])
            k)
        ≡ true
  found-kept jobs next none k h = h
  found-kept jobs next (some job) k h =
      ground (arith, h, lookup-put jobs k job.job_id (close_occurrence tools job next input.now))

  -- Closing a job removes none.
  closed_jobs-kept :
      (jobs : List (String × Internship)) (next : SourceOccurrenceState) (k : String)
      → is_some (lookup jobs k) ≡ true
      → is_some (lookup (closed_jobs tools input jobs next) k) ≡ true
  unfolding closed_jobs
  closed_jobs-kept jobs next k h =
      let found = or_else (lookup jobs next.job_id) (lookup input.resolved_jobs next.external_id) in
      if_splits (λ table. is_some (lookup table k) ≡ true) (ltb next.consecutive_omissions 2) jobs
        (elim found [
          | none ↦ jobs
          | some job ↦ put jobs job.job_id (close_occurrence tools job next input.now)
        ])
        (λ e. h) (λ e. found-kept jobs next found k h)

  confirmed_step :
      (plan : Plan) (prior : SourceOccurrenceState)
      → is_among prior.external_id plan.included ≡ false
      → All (WhereIncluded plan) plan.occurrences
      → All
          (WhereIncluded (with_confirmed tools input plan prior))
          (with_confirmed tools input plan prior).occurrences
  unfolding with_confirmed confirmed_again
  confirmed_step plan prior e h =
      All-append (WhereIncluded plan) plan.occurrences
        (noted tools input (some prior) (confirmed_again tools input prior)) h
        (noted-All (WhereIncluded plan) (some prior) (confirmed_again tools input prior)
          (λ listed. elim (true≢false (sym listed ∙ e)) [ ]))

  omitted_step :
      (plan : Plan) (prior : SourceOccurrenceState)
      → is_among prior.external_id plan.included ≡ false
      → All (WhereIncluded plan) plan.occurrences
      → All
          (WhereIncluded (with_omitted tools input plan prior))
          (with_omitted tools input plan prior).occurrences
  unfolding with_omitted omitted
  omitted_step plan prior e h =
      let after = with_omitted tools input plan prior in
      All-append (WhereIncluded after) plan.occurrences (omitted tools input prior ∷ [])
        (All-implied (WhereIncluded plan) (WhereIncluded after) plan.occurrences
          (λ o linked listed.
            let known = linked listed in
            (
              closed_jobs-kept plan.jobs (omitted tools input prior) o.job_id known.0,
              known.1,
              known.2,
              known.3,
            ))
          h)
        ((λ listed. elim (true≢false (sym listed ∙ e)) [ ]), tt)

  -- Each stored occurrence whose id the plan has among its own belongs to this source, is present with
  -- no omissions, and names a job of the plan.
  pub included_occurrences_linked :
      WhereSome (λ plan. All (WhereIncluded plan) plan.occurrences) (reconcile tools input)
  included_occurrences_linked =
      reconcile-passes tools input Linked (λ plan. All (WhereIncluded plan) plan.occurrences) tt
        with_listing-Linked
        (λ plan h.
          All-implied (IsLinked plan.jobs) (WhereIncluded plan) plan.occurrences (λ o k listed. k)
            h)
        (λ plan prior h.
          prior_splits tools input (λ p. All (WhereIncluded p) p.occurrences) plan prior (λ e. h)
            (λ e. confirmed_step plan prior e h) (λ e. omitted_step plan prior e h))
