-- ===== src/Catalog/Induction.antt =====
-- src/ingestion/catalog-reconciler.ts: what each step of a reconciliation keeps holds of the plan.
use intern_notifs.Base.{
  String, ◌≡◌, Option, none, some, List, [], ◌∷◌, Option_splits, true, false, if_splits,
  if◌then◌else◌,
}
use intern_notifs.Base.Sets.{WhereSome}
use intern_notifs.Catalog.Types.{ProcessedListing, SourceOccurrenceState, Tools}
use intern_notifs.Catalog.Plan.{ReconciliationInput, Plan, empty_plan, is_among}
use intern_notifs.Catalog.Reconcile.{
  with_listing, reconcile_listings, with_prior, with_confirmed, with_omitted, reconcile_priors,
  reconcile, external_id_of,
}

module _ (tools : Tools) (input : ReconciliationInput) (P : Plan → Type 0) where
  -- The three ways in which an occurrence from before is looked at.
  pub prior_splits :
      (plan : Plan) (prior : SourceOccurrenceState)
      → (is_among prior.external_id plan.included ≡ true → P plan)
      → (is_among prior.external_id plan.included ≡ false
          → P (with_confirmed tools input plan prior))
      → (is_among prior.external_id plan.included ≡ false → P (with_omitted tools input plan prior))
      → P (with_prior tools input plan prior)
  unfolding with_prior
  prior_splits plan prior listed confirmed missed =
      if_splits P (is_among prior.external_id plan.included) plan
        (if is_among prior.external_id input.active_external_ids
          then with_confirmed tools input plan prior
          else with_omitted tools input plan prior)
        listed
        (λ e.
          if_splits P (is_among prior.external_id input.active_external_ids)
            (with_confirmed tools input plan prior) (with_omitted tools input plan prior)
            (λ here. confirmed e) (λ gone. missed e))

  listings-keep :
      (plan : Plan) (listings : List ProcessedListing)
      → ((plan : Plan) (listing : ProcessedListing) (external_id url : String)
          → P plan
          → P (with_listing tools input plan listing external_id url))
      → P plan
      → WhereSome P (reconcile_listings tools input plan listings)
  unfolding reconcile_listings
  listings-keep plan [] step h = h
  listings-keep plan (listing ∷ rest) step h =
      Option_splits (WhereSome P) (tools.normalize_url listing.reference.apply_url)
        (λ url.
          reconcile_listings tools input
            (with_listing tools input plan listing (external_id_of tools input listing url) url)
            rest)
        none
        (λ url e.
          listings-keep
            (with_listing tools input plan listing (external_id_of tools input listing url) url)
            rest step (step plan listing (external_id_of tools input listing url) url h))
        (λ e. tt)

  pub priors-keep :
      (plan : Plan) (priors : List SourceOccurrenceState)
      → ((plan : Plan) (prior : SourceOccurrenceState)
          → P plan
          → P (with_prior tools input plan prior))
      → P plan
      → P (reconcile_priors tools input plan priors)
  unfolding reconcile_priors
  priors-keep plan [] step h = h
  priors-keep plan (prior ∷ rest) step h =
      priors-keep (with_prior tools input plan prior) rest step (step plan prior h)

module _ (tools : Tools) (input : ReconciliationInput) (P Q : Plan → Type 0) where
  made-keep :
      (made : Option Plan)
      → ((plan : Plan) → P plan → Q plan)
      → ((plan : Plan) (prior : SourceOccurrenceState)
          → Q plan
          → Q (with_prior tools input plan prior))
      → WhereSome P made
      → WhereSome Q (elim made [
        | none ↦ none
        | some plan ↦ some (reconcile_priors tools input plan input.prior_occurrences)
      ])
  made-keep none between step h = tt
  made-keep (some plan) between step h =
      priors-keep tools input Q plan input.prior_occurrences step (between plan h)

  -- What the listings keep, and then, perhaps weaker, what the occurrences from before keep.
  pub reconcile-passes :
      P empty_plan
      → ((plan : Plan) (listing : ProcessedListing) (external_id url : String)
          → P plan
          → P (with_listing tools input plan listing external_id url))
      → ((plan : Plan) → P plan → Q plan)
      → ((plan : Plan) (prior : SourceOccurrenceState)
          → Q plan
          → Q (with_prior tools input plan prior))
      → WhereSome Q (reconcile tools input)
  unfolding reconcile
  reconcile-passes base listed_step between prior_step =
      made-keep (reconcile_listings tools input empty_plan input.listings) between prior_step
        (listings-keep tools input P empty_plan input.listings listed_step base)

module _ (tools : Tools) (input : ReconciliationInput) (P : Plan → Type 0) where
  pub reconcile-keeps :
      P empty_plan
      → ((plan : Plan) (listing : ProcessedListing) (external_id url : String)
          → P plan
          → P (with_listing tools input plan listing external_id url))
      → ((plan : Plan) (prior : SourceOccurrenceState)
          → P plan
          → P (with_prior tools input plan prior))
      → WhereSome P (reconcile tools input)
  reconcile-keeps base listed_step prior_step =
      reconcile-passes tools input P P base listed_step (λ plan h. h) prior_step
