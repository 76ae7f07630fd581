-- ===== src/Identity/Agree.antt =====
-- Contradictions in the evidence: a posting is confirmed only where its evidence agrees.
use intern_notifs.Base.{
  ◌≡◌, refl, sym, inl, inr, String, false, Option, none, some, List, arith, eq_iff, Result, err, ok,
  All, or_else, if_splits, Option_splits,
}
use mathlib.Core.Path.{subst}
use intern_notifs.Base.Sets.{unique_by-single}
use intern_notifs.Identity.Posting.{PostingIdentity, ProviderPostingReference, TypeError}
use intern_notifs.Identity.Decision.{
  Confirmed, Decision, confirmed, unconfirmed, quarantined, RegistryInput, RegistryResult, Routes,
  Requisition, ConflictReason,
}
use intern_notifs.Identity.Conflicts.{
  alias_key, requisition_key, first_conflict, evidence_conflict, requisition_conflict,
  provider_conflict, requisitions, references, exact_references, unique_requisitions, more_than_one,
}
use intern_notifs.Identity.Registry.{
  confirm, previous_for, stale, as_unconfirmed, as_quarantined, first, evidence_expiry,
  from_reference, from_evidence, resolve_posting_identity_decision, provider_confirmation,
}

or_else-none : {A : Type 0} (a b : Option A) → or_else a b ≡ none → (a ≡ none) × (b ≡ none)
or_else-none none b h = (refl, h)
or_else-none (some a) b h = (h, cc)

-- The requisitions are all the same.
abbrev pub SameRequisitions : List Requisition → Type 0
SameRequisitions rs = (key : String) × All (λ r. requisition_key r ≡ key) rs

module _ (routes : Routes) where
  -- Where a result confirms, it confirms this key.
  abbrev pub ConfirmsKey : String → Result TypeError RegistryResult → Type 0
  ConfirmsKey key (err thrown) = Unit
  ConfirmsKey key (ok result) = (c : Confirmed) → result.decision ≡ confirmed c → c.exact_key ≡ key

  confirm-ConfirmsKey :
      (key : String) (c : Confirmed) (built : Result TypeError PostingIdentity)
      → c.exact_key ≡ key
      → ConfirmsKey key (confirm c built)
  unfolding confirm
  confirm-ConfirmsKey key c (err thrown) h = tt
  confirm-ConfirmsKey key c (ok identity) h = λ d e. cc

  previous_for-key :
      (previous : Option Decision) (key : String) (c : Confirmed)
      → previous_for previous key ≡ some c
      → c.exact_key ≡ key
  previous_for-key (some (confirmed d)) key c h = ground (arith, eq_iff d.exact_key key)
  previous_for-key none key c h = cc
  previous_for-key (some (unconfirmed u)) key c h = cc
  previous_for-key (some (quarantined q)) key c h = cc

  pub from_reference-ConfirmsKey :
      (input : RegistryInput) (r : ProviderPostingReference)
      → ConfirmsKey (alias_key r) (from_reference routes input r)
  unfolding from_reference as_unconfirmed provider_confirmation
  from_reference-ConfirmsKey input r =
      let key = alias_key r in
      Option_splits (ConfirmsKey key) (previous_for input.previous_decision key) _ _
        (λ c h. confirm-ConfirmsKey key c _ (previous_for-key input.previous_decision key c h))
        (λ _.
          if_splits (ConfirmsKey key) (stale (evidence_expiry input.posting) input.observed_at) _ _
            (λ _ d e. cc)
            (λ _. confirm-ConfirmsKey key (provider_confirmation routes input r) _ refl))

  pub unconflicted :
      (input : RegistryInput) (found : Option (ConflictReason × List String))
      (rest : Result TypeError RegistryResult) (result : RegistryResult) (c : Confirmed)
      → elim found [ some f ↦ as_quarantined routes input f | none ↦ rest ] ≡ ok result
      → result.decision ≡ confirmed c
      → (found ≡ none) × (rest ≡ ok result)
  unfolding as_quarantined
  unconflicted input none rest result c came h = (refl, came)
  unconflicted input (some f) rest result c came h = (cc, cc)

  provider_conflict-none :
      (exact : List ProviderPostingReference)
      → provider_conflict routes exact ≡ none
      → more_than_one exact ≡ false
  unfolding provider_conflict
  provider_conflict-none exact h = ground arith

  requisition_conflict-none :
      (unique : List Requisition)
      → requisition_conflict routes unique ≡ none
      → more_than_one unique ≡ false
  unfolding requisition_conflict
  requisition_conflict-none unique h = ground arith

  first_conflict-none :
      (input : RegistryInput)
      → first_conflict routes input ≡ none
      → (evidence_conflict routes input.posting.provider_evidence ≡ none)
        × (more_than_one (unique_requisitions routes input) ≡ false)
        × (more_than_one (exact_references routes input) ≡ false)
  unfolding first_conflict
  first_conflict-none input h =
      let outer = or_else-none (evidence_conflict routes input.posting.provider_evidence) _ h in
      let inner =
        or_else-none (requisition_conflict routes (unique_requisitions routes input)) _ outer.1 in
      (
        outer.0,
        requisition_conflict-none (unique_requisitions routes input) inner.0,
        provider_conflict-none (exact_references routes input) inner.1,
      )

  -- The references are all for the key that is confirmed.
  references_agree :
      (input : RegistryInput) (exact : List ProviderPostingReference) (q : Option Requisition)
      (result : RegistryResult) (c : Confirmed)
      → exact_references routes input ≡ exact
      → more_than_one exact ≡ false
      → from_evidence routes input (first exact) q ≡ ok result
      → result.decision ≡ confirmed c
      → All (λ r. alias_key r ≡ c.exact_key) (references routes input)
  unfolding exact_references from_evidence
  references_agree input exact q result c e single came h =
      elim (unique_by-single alias_key (references routes input) exact e single) [
        | inl p ↦ subst (All (λ r. alias_key r ≡ c.exact_key)) (sym p.1) tt
        | inr p ↦
            let there =
              subst (λ xs. from_evidence routes input (first xs) q ≡ ok result) p.1 came in
            let key =
              subst (ConfirmsKey (alias_key p.0)) there (from_reference-ConfirmsKey input p.0) in
            subst (λ k. All (λ r. alias_key r ≡ k) (references routes input)) (sym (key c h)) p.2
      ]

  requisitions_agree :
      (input : RegistryInput)
      → more_than_one (unique_requisitions routes input) ≡ false
      → SameRequisitions (requisitions routes input)
  unfolding unique_requisitions
  requisitions_agree input single =
      elim (unique_by-single requisition_key (requisitions routes input) _ refl single) [
        | inl p ↦ ("", subst (All (λ r. requisition_key r ≡ "")) (sym p.1) tt)
        | inr p ↦ (requisition_key p.0, p.2)
      ]

  -- A posting is confirmed only where nothing contradicts it: the evidence of its provider is
  -- accepted, all references are for the one posting that is confirmed, and all requisitions of
  -- employers are the same.
  pub confirmed_agrees :
      (input : RegistryInput) (result : RegistryResult) (c : Confirmed)
      → resolve_posting_identity_decision routes input ≡ ok result
      → result.decision ≡ confirmed c
      → (evidence_conflict routes input.posting.provider_evidence ≡ none)
        × All (λ r. alias_key r ≡ c.exact_key) (references routes input)
        × SameRequisitions (requisitions routes input)
  unfolding resolve_posting_identity_decision
  confirmed_agrees input result c came h =
      let free = unconflicted input (first_conflict routes input) _ result c came h in
      let parts = first_conflict-none input free.0 in
      (
        parts.0,
        references_agree input (exact_references routes input) _ result c refl parts.2 free.1 h,
        requisitions_agree input parts.1,
      )
