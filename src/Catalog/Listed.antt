-- ===== src/Catalog/Listed.antt =====
-- src/ingestion/catalog-reconciler.ts: what a plan stores for the listings of the snapshot.
use intern_notifs.Base.{
  String, ◌≡◌, Bool, true, false, ◌||◌, Option, none, some, List, [], ◌∷◌, All, str_eq,
  Option_splits, arith,
}
use intern_notifs.Base.Sets.{WhereSome}
use intern_notifs.Catalog.Types.{ProcessedListing, SourceOccurrenceState, Tools}
use intern_notifs.Catalog.Plan.{ReconciliationInput, Plan, empty_plan, is_among}
use intern_notifs.Catalog.Reconcile.{
  with_listing, reconcile_listings, reconcile_priors, with_confirmed, with_omitted, reconcile,
  external_id_of,
}
use intern_notifs.Catalog.Induction.{prior_splits, priors-keep}
use intern_notifs.Catalog.Linked.{IsLinked, WhereIncluded, included_occurrences_linked}

module _ (tools : Tools) (input : ReconciliationInput) where
  abbrev lists_as : String → ProcessedListing → Option String → Bool
  lists_as id listing none = false
  lists_as id listing (some url) = str_eq id (external_id_of tools input listing url)

  -- Does one of the listings have the id: its own, or the one made of its document and its URL?
  abbrev pub is_listed : String → List ProcessedListing → Bool
  is_listed id [] = false
  is_listed id (listing ∷ rest) =
      lists_as id listing (tools.normalize_url listing.reference.apply_url) || is_listed id rest

  abbrev Includes : (String → Bool) → Plan → Type 0
  Includes P plan = (id : String) → P id ≡ true → is_among id plan.included ≡ true

  weaker :
      (P Q : String → Bool) (made : Option Plan)
      → ((id : String) → Q id ≡ true → P id ≡ true)
      → WhereSome (Includes P) made
      → WhereSome (Includes Q) made
  weaker P Q none f h = tt
  weaker P Q (some plan) f h = λ id k. h id (f id k)

  listings_included :
      (plan : Plan) (listings : List ProcessedListing)
      → WhereSome
          (Includes (λ id. is_among id plan.included || is_listed id listings))
          (reconcile_listings tools input plan listings)
  unfolding reconcile_listings with_listing
  listings_included plan [] = λ id k. ground (arith, k)
  listings_included plan (listing ∷ rest) =
      Option_splits
        (WhereSome (Includes (λ id. is_among id plan.included || is_listed id (listing ∷ rest))))
        (tools.normalize_url listing.reference.apply_url)
        (λ url.
          reconcile_listings tools input
            (with_listing tools input plan listing (external_id_of tools input listing url) url)
            rest)
        none
        (λ url e.
          let next =
            with_listing tools input plan listing (external_id_of tools input listing url) url in
          weaker (λ id. is_among id next.included || is_listed id rest)
            (λ id. is_among id plan.included || is_listed id (listing ∷ rest))
            (reconcile_listings tools input next rest) (λ id k. ground (arith, e, k))
            (listings_included next rest))
        (λ e. tt)

  -- An occurrence with the id of a listing: it is there, of this source, and its job is in the plan.
  abbrev pub WhereListed : Plan → SourceOccurrenceState → Type 0
  WhereListed plan o =
      is_listed o.external_id input.listings ≡ true → IsLinked tools input plan.jobs o

  listed-All :
      (plan : Plan) (occurrences : List SourceOccurrenceState)
      → Includes (λ id. is_listed id input.listings) plan
      → All (WhereIncluded tools input plan) occurrences
      → All (WhereListed plan) occurrences
  listed-All plan [] f h = tt
  listed-All plan (o ∷ rest) f h =
      ((λ listed. h.0 (f o.external_id listed)), listed-All plan rest f h.1)

  listed_of_both :
      (made : Option Plan)
      → WhereSome (Includes (λ id. is_listed id input.listings)) made
      → WhereSome (λ plan. All (WhereIncluded tools input plan) plan.occurrences) made
      → WhereSome (λ plan. All (WhereListed plan) plan.occurrences) made
  listed_of_both none f h = tt
  listed_of_both (some plan) f h = listed-All plan plan.occurrences f h

  priors_included :
      (made : Option Plan) (P : String → Bool)
      → WhereSome (Includes P) made
      → WhereSome (Includes P) (elim made [
        | none ↦ none
        | some plan ↦ some (reconcile_priors tools input plan input.prior_occurrences)
      ])
  unfolding with_confirmed with_omitted
  priors_included none P h = tt
  priors_included (some plan) P h =
      priors-keep tools input (Includes P) plan input.prior_occurrences
        (λ plan prior k.
          prior_splits tools input (Includes P) plan prior (λ e. k) (λ e. k) (λ e. k))
        h

  -- Each occurrence that the plan stores under the id of a listing of the snapshot belongs to this
  -- source, is present with no omissions, and names a job of the plan.
  pub listed_occurrences_linked :
      WhereSome (λ plan. All (WhereListed plan) plan.occurrences) (reconcile tools input)
  unfolding reconcile
  listed_occurrences_linked =
      let made = reconcile_listings tools input empty_plan input.listings in
      listed_of_both (reconcile tools input)
        (priors_included made (λ id. is_listed id input.listings)
          (weaker (λ id. is_among id [] || is_listed id input.listings)
            (λ id. is_listed id input.listings) made (λ id k. k)
            (listings_included empty_plan input.listings)))
        (included_occurrences_linked tools input)
