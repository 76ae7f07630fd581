-- ===== src/Identity/Outcome.antt =====
-- What a decision of the registry rests on, for each way to it.
use intern_notifs.Base.{
  ◌≡◌, refl, ◌⊎◌, inl, inr, String, Bool, true, false, Option, none, some, List, [], ◌∷◌, arith,
  Result, err, ok, not, if_splits, Option_splits,
}
use mathlib.Core.Path.{subst}
use intern_notifs.Identity.Posting.{
  PostingIdentity, ProviderPostingReference, TypeError, input_urls,
}
use intern_notifs.Identity.Decision.{
  Confirmed, Decision, confirmed, unconfirmed, quarantined, RegistryInput, RegistryResult, Routes,
  Requisition, ReviewedCanonicalUrlEvidence, immutable_provider_id,
  authoritative_employer_requisition, reviewed_canonical_url, UnconfirmedReason, ConflictReason,
}
use intern_notifs.Identity.Conflicts.{
  alias_key, named_requisition, first_conflict, unique_requisitions,
}
use intern_notifs.Identity.Registry.{
  claimable_identity, confirm, previous_for, stale, as_unconfirmed, as_quarantined, first,
  evidence_expiry, from_reference, from_requisition, from_reviewed_url, from_previous,
  from_evidence, resolve_posting_identity_decision, url_approved, retained, provider_confirmation,
  requisition_confirmation, url_confirmation,
}

abbrev pub is_confirmed : Decision → Bool
is_confirmed (confirmed c) = true
is_confirmed _ = false

module _ (routes : Routes) where
  -- What a new confirmation rests on: evidence that has not expired.
  abbrev pub Backing : RegistryInput → Confirmed → Type 0
  Backing input c = elim c.evidence_kind [
    | immutable_provider_id ↦ stale (evidence_expiry input.posting) input.observed_at ≡ false
    | authoritative_employer_requisition ↦
        (q : Requisition) × (first (unique_requisitions routes input) ≡ some q)
        × (c.exact_key ≡ named_requisition q)
    | reviewed_canonical_url ↦
        (u : ReviewedCanonicalUrlEvidence) × (input.reviewed_canonical ≡ some u)
        × (url_approved routes input u ≡ true)
        × (stale u.url_expires_at input.observed_at ≡ false)
  ]

  -- The decision before this one, or a new one.
  abbrev pub Sourced : RegistryInput → Confirmed → Type 0
  Sourced input c =
      (input.previous_decision ≡ some (confirmed c))
      ⊎ ((c.confirmed_at ≡ input.observed_at) × Backing input c)

  abbrev Confirms : RegistryInput → Confirmed → RegistryResult → Type 0
  Confirms input c result =
      (i : PostingIdentity) × (result.decision ≡ confirmed c)
      × (result.identity ≡ some (claimable_identity i c.exact_key c.evidence_kind))
      × Sourced input c

  abbrev pub Ends : RegistryInput → RegistryResult → Type 0
  Ends input result =
      ((is_confirmed result.decision ≡ false) × (result.identity ≡ none))
      ⊎ ((c : Confirmed) × Confirms input c result)

  abbrev AllEnds : RegistryInput → Result TypeError RegistryResult → Type 0
  AllEnds input (err thrown) = Unit
  AllEnds input (ok result) = Ends input result

  confirm-AllEnds :
      (input : RegistryInput) (c : Confirmed) (built : Result TypeError PostingIdentity)
      → Sourced input c
      → AllEnds input (confirm c built)
  unfolding confirm
  confirm-AllEnds input c (err thrown) s = tt
  confirm-AllEnds input c (ok identity) s = inr (c, (identity, refl, refl, s))

  as_unconfirmed-AllEnds :
      (input : RegistryInput) (reason : UnconfirmedReason)
      → AllEnds input (as_unconfirmed routes input reason)
  unfolding as_unconfirmed
  as_unconfirmed-AllEnds input reason = inl (refl, refl)

  as_quarantined-AllEnds :
      (input : RegistryInput) (found : ConflictReason × List String)
      → AllEnds input (as_quarantined routes input found)
  unfolding as_quarantined
  as_quarantined-AllEnds input found = inl (refl, refl)

  previous_for-some :
      (previous : Option Decision) (key : String) (c : Confirmed)
      → previous_for previous key ≡ some c
      → previous ≡ some (confirmed c)
  previous_for-some (some (confirmed d)) key c h = ground arith
  previous_for-some none key c h = cc
  previous_for-some (some (unconfirmed u)) key c h = cc
  previous_for-some (some (quarantined q)) key c h = cc

  from_reference-AllEnds :
      (input : RegistryInput) (r : ProviderPostingReference)
      → AllEnds input (from_reference routes input r)
  unfolding from_reference provider_confirmation
  from_reference-AllEnds input r =
      Option_splits (AllEnds input) (previous_for input.previous_decision (alias_key r)) _ _
        (λ c h.
          confirm-AllEnds input c _
            (inl (previous_for-some input.previous_decision (alias_key r) c h)))
        (λ _.
          if_splits (AllEnds input) (stale (evidence_expiry input.posting) input.observed_at) _ _
            (λ _. as_unconfirmed-AllEnds input _)
            (λ fresh.
              confirm-AllEnds input (provider_confirmation routes input r) _ (inr (refl, fresh))))

  from_requisition-AllEnds :
      (input : RegistryInput) (r : Requisition)
      → first (unique_requisitions routes input) ≡ some r
      → AllEnds input (from_requisition routes input r)
  unfolding from_requisition requisition_confirmation
  from_requisition-AllEnds input r h =
      confirm-AllEnds input (requisition_confirmation routes input r) _ (inr (refl, (r, h, refl)))

  from_reviewed_url-AllEnds :
      (input : RegistryInput) (u : ReviewedCanonicalUrlEvidence)
      → input.reviewed_canonical ≡ some u
      → AllEnds input (from_reviewed_url routes input u)
  unfolding from_reviewed_url url_confirmation
  from_reviewed_url-AllEnds input u h =
      if_splits (AllEnds input) (not (url_approved routes input u)) _ _
        (λ _. as_quarantined-AllEnds input _)
        (λ approved.
          if_splits (AllEnds input) (stale u.url_expires_at input.observed_at) _ _
            (λ _.
              Option_splits (AllEnds input)
                (previous_for input.previous_decision (url_confirmation routes input u).exact_key) _
                _
                (λ c k.
                  confirm-AllEnds input c _ (inl (previous_for-some input.previous_decision _ c k)))
                (λ _. as_unconfirmed-AllEnds input _))
            (λ fresh.
              confirm-AllEnds input (url_confirmation routes input u) _
                (inr (refl, (u, h, ground (arith, approved), fresh)))))

  retained-some :
      (previous : Option Decision) (urls : List String)
      (kept : Confirmed × ProviderPostingReference)
      → retained routes previous urls ≡ some kept
      → previous ≡ some (confirmed kept.0)
  retained-some previous [] kept h = cc
  retained-some none (url ∷ rest) kept h = cc
  retained-some (some (unconfirmed u)) (url ∷ rest) kept h = cc
  retained-some (some (quarantined q)) (url ∷ rest) kept h = cc
  retained-some (some (confirmed c)) (url ∷ rest) kept h =
      let later = retained-some (some (confirmed c)) rest kept in ground (arith, later)

  from_previous-AllEnds : (input : RegistryInput) → AllEnds input (from_previous routes input)
  unfolding from_previous
  from_previous-AllEnds input =
      Option_splits (AllEnds input)
        (retained routes input.previous_decision (input_urls input.posting)) _ _
        (λ kept h.
          confirm-AllEnds input kept.0 _
            (inl (retained-some input.previous_decision (input_urls input.posting) kept h)))
        (λ _. as_unconfirmed-AllEnds input _)

  from_evidence-AllEnds :
      (input : RegistryInput) (r : Option ProviderPostingReference) (q : Option Requisition)
      → first (unique_requisitions routes input) ≡ q
      → AllEnds input (from_evidence routes input r q)
  unfolding from_evidence
  from_evidence-AllEnds input (some r) q h = from_reference-AllEnds input r
  from_evidence-AllEnds input none (some q) h = from_requisition-AllEnds input q h
  from_evidence-AllEnds input none none h =
      Option_splits (AllEnds input) input.reviewed_canonical _ _
        (λ u k. from_reviewed_url-AllEnds input u k) (λ _. from_previous-AllEnds input)

  resolve-AllEnds :
      (input : RegistryInput) → AllEnds input (resolve_posting_identity_decision routes input)
  unfolding resolve_posting_identity_decision
  resolve-AllEnds input =
      Option_splits (AllEnds input) (first_conflict routes input) _ _
        (λ found _. as_quarantined-AllEnds input found) (λ _. from_evidence-AllEnds input _ _ refl)

  pub resolve-Ends :
      (input : RegistryInput) (result : RegistryResult)
      → resolve_posting_identity_decision routes input ≡ ok result
      → Ends input result
  resolve-Ends input result came = subst (AllEnds input) came (resolve-AllEnds input)
