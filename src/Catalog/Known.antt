-- ===== src/Catalog/Known.antt =====
-- src/ingestion/catalog-reconciler.ts: a snapshot of postings that are all known.
use intern_notifs.Base.{
  String, ◌≡◌, refl, Bool, true, false, ◌&&◌, Option, none, some, List, [], ◌∷◌, All, is_some,
  or_else, Option_splits, arith,
}
use intern_notifs.Base.Table.{lookup}
use intern_notifs.Base.Sets.{WhereSome}
use intern_notifs.Catalog.Types.{ProcessedListing, Internship, Tools}
use intern_notifs.Catalog.Plan.{ReconciliationInput, Plan, empty_plan, silent}
use intern_notifs.Catalog.Listing.{announcement, in_snapshot, prior_by_id, delayed_promotion}
use intern_notifs.Catalog.Reconcile.{
  with_listing, listed_job, external_id_of, reconcile_listings, reconcile_priors, with_confirmed,
  with_omitted, reconcile,
}
use intern_notifs.Catalog.Induction.{prior_splits, priors-keep}

module _ (tools : Tools) (input : ReconciliationInput) where
  -- Is there a stored job and an occurrence from before for this id?
  abbrev pub is_known : String → Bool
  is_known id = is_some (lookup input.resolved_jobs id) && is_some (prior_by_id tools input id)

  abbrev pub WasKnown : ProcessedListing → Type 0
  WasKnown listing =
      (id : String) × (listing.reference.external_id ≡ some id) × (is_known id ≡ true)

  abbrev Quiet : Plan → Type 0
  Quiet plan = (plan.notifications ≡ []) × (plan.new_jobs ≡ [])

  module _ (untrusted : input.trusted_alerts ≡ false) where
    known_silent :
        (id : String) (listing : ProcessedListing) (converged : Option Internship)
        (merged : Internship)
        → is_known id ≡ true
        → announcement tools input id listing (lookup input.resolved_jobs id) converged merged
          ≡ silent
    unfolding announcement delayed_promotion
    known_silent id listing converged merged known = ground (arith, known, untrusted)

    with_listing-Quiet :
        (plan : Plan) (listing : ProcessedListing) (id url : String)
        → is_known id ≡ true
        → Quiet plan
        → Quiet (with_listing tools input plan listing id url)
    unfolding with_listing
    with_listing-Quiet plan listing id url known h =
        let stored = lookup input.resolved_jobs id in
        let converged = in_snapshot tools input plan listing url stored in
        let merged : Internship =
          listed_job tools input listing id url (or_else converged stored) in
        rw (known_silent id listing converged merged known) (rw h.0 (rw h.1 (refl, refl)))

    listings-Quiet :
        (plan : Plan) (listings : List ProcessedListing)
        → All WasKnown listings
        → Quiet plan
        → WhereSome Quiet (reconcile_listings tools input plan listings)
    unfolding reconcile_listings
    listings-Quiet plan [] known h = h
    listings-Quiet plan (listing ∷ rest) known h =
        Option_splits (WhereSome Quiet) (tools.normalize_url listing.reference.apply_url)
          (λ url.
            reconcile_listings tools input
              (with_listing tools input plan listing (external_id_of tools input listing url) url)
              rest)
          none
          (λ url e.
            listings-Quiet
              (with_listing tools input plan listing (external_id_of tools input listing url) url)
              rest known.1
              (with_listing-Quiet plan listing (external_id_of tools input listing url) url
                (rw known.0.1 known.0.2) h))
          (λ e. tt)

    made-Quiet :
        (made : Option Plan)
        → WhereSome Quiet made
        → WhereSome Quiet (elim made [
          | none ↦ none
          | some plan ↦ some (reconcile_priors tools input plan input.prior_occurrences)
        ])
    unfolding with_confirmed with_omitted
    made-Quiet none h = tt
    made-Quiet (some plan) h =
        priors-keep tools input Quiet plan input.prior_occurrences
          (λ p prior k. prior_splits tools input Quiet p prior (λ e. k) (λ e. k) (λ e. k)) h

    -- Where no source is trusted to promote postings later, a snapshot announces nothing if each of its
    -- listings has an id with a stored job and an occurrence from before: no posting is announced
    -- again, whatever became of it.
    pub known_stay_quiet :
        All WasKnown input.listings
        → WhereSome
            (λ plan. (plan.notifications ≡ []) × (plan.new_jobs ≡ []))
            (reconcile tools input)
    unfolding reconcile
    known_stay_quiet known =
        made-Quiet (reconcile_listings tools input empty_plan input.listings)
          (listings-Quiet empty_plan input.listings known (refl, refl))
