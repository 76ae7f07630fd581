-- ===== src/Catalog/Closing.antt =====
-- src/ingestion/catalog-reconciler.ts: an occurrence over the snapshots that do not list it anew.
use mathlib.Core.Bool.{true≢false}
use mathlib.Core.Path.{subst}
use text.Mathlib.TextPositions.{eq_refl}
use intern_notifs.Base.{
  String, ◌≡◌, refl, sym, ap, ◌∙◌, ◌⊎◌, inl, inr, Bool, true, false, ◌&&◌, ◌||◌, not, Option, none,
  some, List, [], ◌∷◌, ◌++◌, if_splits, Option_splits, if◌then◌else◌, arith, ltb, is_some, str_eq,
}
use intern_notifs.Base.Sets.{WhereSome}
use intern_notifs.Catalog.Types.{ProcessedListing, SourceOccurrenceState, Tools}
use intern_notifs.Catalog.Plan.{ReconciliationInput, Plan, empty_plan, is_among}
use intern_notifs.Catalog.Listing.{occurrence_changed, seen_again, prior_by_id}
use intern_notifs.Catalog.Reconcile.{
  reconcile, reconcile_listings, reconcile_priors, with_listing, with_prior, omitted,
  confirmed_again, with_confirmed, with_omitted, noted, external_id_of,
}
use intern_notifs.Catalog.Induction.{prior_splits}
use intern_notifs.Catalog.Listed.{is_listed}

-- The occurrence as it is stored after occurrences are written, each under its id.
abbrev pub latest :
    String → SourceOccurrenceState → List SourceOccurrenceState → SourceOccurrenceState
latest id current [] = current
latest id current (o ∷ rest) = latest id (if str_eq id o.external_id then o else current) rest

-- And after a plan, if there is one.
abbrev pub stored_after : Option Plan → SourceOccurrenceState → SourceOccurrenceState
stored_after none prior = prior
stored_after (some plan) prior = latest prior.external_id prior plan.occurrences

abbrev pub unlike : String → List SourceOccurrenceState → Bool
unlike id [] = true
unlike id (o ∷ rest) = not (str_eq id o.external_id) && unlike id rest

-- The occurrence is the only one of the list with its id.
abbrev pub IsOnly : SourceOccurrenceState → List SourceOccurrenceState → Type 0
IsOnly p [] = ⊥
IsOnly p (o ∷ rest) =
    ((o ≡ p) × (unlike p.external_id rest ≡ true))
    ⊎ ((str_eq p.external_id o.external_id ≡ false) × IsOnly p rest)

-- Does the snapshot lack the id?
abbrev pub missed : String → ReconciliationInput → Bool
missed id input = not (is_among id input.active_external_ids)

-- Were two snapshots in a row without the id?
abbrev pub twice_missed : Bool → String → List ReconciliationInput → Bool
twice_missed before id [] = false
twice_missed before id (input ∷ rest) =
    before && missed id input || twice_missed (missed id input) id rest

latest-append :
    (id : String) (c : SourceOccurrenceState) (xs ys : List SourceOccurrenceState)
    → latest id c (xs ++ ys) ≡ latest id (latest id c xs) ys
latest-append id c [] ys = refl
latest-append id c (x ∷ xs) ys = latest-append id (if str_eq id x.external_id then x else c) xs ys

module _ (tools : Tools) where
  unfoldable pub after_snapshots :
      List ReconciliationInput → SourceOccurrenceState → SourceOccurrenceState
  after_snapshots [] prior = prior
  after_snapshots (input ∷ rest) prior =
      after_snapshots rest (stored_after (reconcile tools input) prior)

  -- Each snapshot is reconciled on what the one before left of the occurrence, whatever else is stored
  -- and listed, and has no listing with its id.
  abbrev pub Follows : SourceOccurrenceState → List ReconciliationInput → Type 0
  Follows prior [] = Unit
  Follows prior (input ∷ rest) =
      IsOnly prior input.prior_occurrences
      × (is_listed tools input prior.external_id input.listings ≡ false)
      × (is_some (reconcile tools input) ≡ true)
      × Follows (stored_after (reconcile tools input) prior) rest

  module _ (input : ReconciliationInput) where
    latest-noted :
        (id : String) (c next : SourceOccurrenceState) (prior : Option SourceOccurrenceState)
        → str_eq id next.external_id ≡ false
        → latest id c (noted tools input prior next) ≡ c
    unfolding noted
    latest-noted id c next prior e =
        if_splits (λ xs. latest id c xs ≡ c) (occurrence_changed tools prior next) (next ∷ []) []
          (λ _. ground (arith, e)) (λ _. refl)

    -- Nothing is written under the id yet.
    abbrev IsFree : SourceOccurrenceState → Plan → Type 0
    IsFree p plan =
        (latest p.external_id p plan.occurrences ≡ p)
        × (is_among p.external_id plan.included ≡ false)

    listings-IsFree :
        (p : SourceOccurrenceState) (plan : Plan) (listings : List ProcessedListing)
        → is_listed tools input p.external_id listings ≡ false
        → IsFree p plan
        → WhereSome (IsFree p) (reconcile_listings tools input plan listings)
    unfolding reconcile_listings with_listing seen_again
    listings-IsFree p plan [] e free = free
    listings-IsFree p plan (listing ∷ rest) e free =
        Option_splits (WhereSome (IsFree p)) (tools.normalize_url listing.reference.apply_url)
          (λ url.
            reconcile_listings tools input
              (with_listing tools input plan listing (external_id_of tools input listing url) url)
              rest)
          none
          (λ url read.
            let id = external_id_of tools input listing url in
            let other : str_eq p.external_id id ≡ false = ground (arith, read, e) in
            listings-IsFree p (with_listing tools input plan listing id url) rest
              (ground (arith, e))
              (
                latest-append p.external_id p plan.occurrences _
                    ∙ (latest-noted p.external_id _ _ (prior_by_id tools input id) other ∙ free.0),
                ground (arith, other, free.1),
              ))
          (λ _. tt)

    -- An occurrence of another id changes nothing under this one.
    other_prior :
        (id : String) (c x : SourceOccurrenceState) (plan : Plan) (prior : SourceOccurrenceState)
        → str_eq id prior.external_id ≡ false
        → latest id c plan.occurrences ≡ x
        → latest id c (with_prior tools input plan prior).occurrences ≡ x
    unfolding with_confirmed with_omitted omitted confirmed_again
    other_prior id c x plan prior e h =
        prior_splits tools input (λ p. latest id c p.occurrences ≡ x) plan prior (λ _. h)
          (λ _.
            latest-append id c plan.occurrences _
            ∙ (latest-noted id _ (confirmed_again tools input prior) (some prior) e ∙ h))
          (λ _. latest-append id c plan.occurrences _ ∙ ground (arith, e, h))

    other_priors :
        (id : String) (c x : SourceOccurrenceState) (plan : Plan)
        (priors : List SourceOccurrenceState)
        → unlike id priors ≡ true
        → latest id c plan.occurrences ≡ x
        → latest id c (reconcile_priors tools input plan priors).occurrences ≡ x
    unfolding reconcile_priors
    other_priors id c x plan [] e h = h
    other_priors id c x plan (prior ∷ rest) e h =
        other_priors id c x (with_prior tools input plan prior) rest (ground arith)
          (other_prior id c x plan prior (ground arith) h)

    prior_included :
        (id : String) (plan : Plan) (prior : SourceOccurrenceState)
        → is_among id plan.included ≡ false
        → is_among id (with_prior tools input plan prior).included ≡ false
    unfolding with_confirmed with_omitted
    prior_included id plan prior e =
        prior_splits tools input (λ p. is_among id p.included ≡ false) plan prior (λ _. e) (λ _. e)
          (λ _. e)

    -- What a snapshot does to the stored occurrence.
    abbrev Steps : SourceOccurrenceState → SourceOccurrenceState → Type 0
    Steps prior next =
        (next.external_id ≡ prior.external_id)
        × (ltb 0 next.consecutive_omissions ≡ missed prior.external_id input)
        × (next.occurrence.is_open ≡ (
            prior.occurrence.is_open
            && not (ltb 0 prior.consecutive_omissions && missed prior.external_id input)))

    confirmed-Steps :
        (p : SourceOccurrenceState)
        → is_among p.external_id input.active_external_ids ≡ true
        → Steps p
            (latest p.external_id p (noted tools input (some p) (confirmed_again tools input p)))
    unfolding noted confirmed_again occurrence_changed
    confirmed-Steps p e =
        let same = eq_refl p.external_id in
        (ground (arith, e, same), ground (arith, e, same), ground (arith, e, same))

    omitted-Steps :
        (p : SourceOccurrenceState)
        → is_among p.external_id input.active_external_ids ≡ false
        → Steps p (latest p.external_id p (omitted tools input p ∷ []))
    unfolding omitted
    omitted-Steps p e =
        let same = eq_refl p.external_id in
        (ground (arith, e, same), ground (arith, e, same), ground (arith, e, same))

    after_free :
        (p : SourceOccurrenceState) (plan : Plan) (written : List SourceOccurrenceState)
        → IsFree p plan
        → Steps p (latest p.external_id p written)
        → Steps p (latest p.external_id p (plan.occurrences ++ written))
    after_free p plan written free steps =
        subst (Steps p)
          (sym (
            latest-append p.external_id p plan.occurrences written
            ∙ ap (λ c. latest p.external_id c written) free.0))
          steps

    own_prior :
        (p : SourceOccurrenceState) (plan : Plan)
        → IsFree p plan
        → Steps p (latest p.external_id p (with_prior tools input plan p).occurrences)
    unfolding with_prior with_confirmed with_omitted
    own_prior p plan free =
        let ends = λ (q : Plan). Steps p (latest p.external_id p q.occurrences) in
        if_splits ends (is_among p.external_id plan.included) plan _
          (λ e. elim (true≢false (sym e ∙ free.1)) [ ])
          (λ _.
            if_splits ends (is_among p.external_id input.active_external_ids)
              (with_confirmed tools input plan p) (with_omitted tools input plan p)
              (λ here. after_free p plan _ free (confirmed-Steps p here))
              (λ gone. after_free p plan _ free (omitted-Steps p gone)))

    priors-Steps :
        (p : SourceOccurrenceState) (plan : Plan) (priors : List SourceOccurrenceState)
        → IsOnly p priors
        → IsFree p plan
        → Steps p (latest p.external_id p (reconcile_priors tools input plan priors).occurrences)
    unfolding reconcile_priors
    priors-Steps p plan [] only free = elim only [ ]
    priors-Steps p plan (o ∷ rest) (inl (e, u)) free =
        subst
          (λ q. Steps p (
            latest p.external_id p
              (reconcile_priors tools input (with_prior tools input plan q) rest).occurrences))
          (sym e)
          (subst (Steps p)
            (sym (other_priors p.external_id p _ (with_prior tools input plan p) rest u refl))
            (own_prior p plan free))
    priors-Steps p plan (o ∷ rest) (inr (e, only)) free =
        priors-Steps p (with_prior tools input plan o) rest only (
          other_prior p.external_id p p plan o e free.0,
          prior_included p.external_id plan o free.1,
        )

    made-Steps :
        (p : SourceOccurrenceState) (made : Option Plan)
        → IsOnly p input.prior_occurrences
        → WhereSome (IsFree p) made
        → let plan : Option Plan = elim made [
          | none ↦ none
          | some q ↦ some (reconcile_priors tools input q input.prior_occurrences)
        ] in
          is_some plan ≡ true → Steps p (stored_after plan p)
    made-Steps p none only free h = elim (true≢false (sym h)) [ ]
    made-Steps p (some q) only free h = priors-Steps p q input.prior_occurrences only free

    after_one :
        (p : SourceOccurrenceState)
        → IsOnly p input.prior_occurrences
        → is_listed tools input p.external_id input.listings ≡ false
        → is_some (reconcile tools input) ≡ true
        → Steps p (stored_after (reconcile tools input) p)
    unfolding reconcile
    after_one p only e h =
        made-Steps p (reconcile_listings tools input empty_plan input.listings) only
          (listings-IsFree p empty_plan input.listings e (refl, refl)) h

  after_snapshots_from :
      (inputs : List ReconciliationInput) (prior : SourceOccurrenceState)
      → Follows prior inputs
      → (after_snapshots inputs prior).occurrence.is_open ≡ (
          prior.occurrence.is_open
          && not (twice_missed (ltb 0 prior.consecutive_omissions) prior.external_id inputs))
  unfolding after_snapshots
  after_snapshots_from [] prior f = ground arith
  after_snapshots_from (input ∷ rest) prior f =
      let next = stored_after (reconcile tools input) prior in
      let steps = after_one input prior f.0 f.1 f.2 in
      after_snapshots_from rest next f.3 ∙ (rw steps.0 (rw steps.1 (rw steps.2 (ground arith))))

  -- An open occurrence that was last seen is closed, after any snapshots that are reconciled one after
  -- another and have no listing with its id, exactly if two of them in a row missed it: one omission
  -- alone closes nothing, however often. Each is given any other stored occurrences, listings and
  -- jobs, and of this occurrence what the snapshot before has left.
  pub closed_after_two :
      (inputs : List ReconciliationInput) (prior : SourceOccurrenceState)
      → prior.occurrence.is_open ≡ true
      → prior.consecutive_omissions ≡ 0
      → Follows prior inputs
      → (after_snapshots inputs prior).occurrence.is_open
        ≡ not (twice_missed false prior.external_id inputs)
  closed_after_two inputs prior h k f = after_snapshots_from inputs prior f ∙ rw h (rw k refl)
