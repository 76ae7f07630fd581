-- ===== src/Identity/Replay.antt =====
-- A posting whose provider has named it once keeps its decision.
use intern_notifs.Base.{
  ℕ, ◌≡◌, refl, sym, ap, ◌∙◌, String, Option, none, some, List, arith, eq_iff, Result, err, ok,
  if_splits, Option_splits,
}
use mathlib.Core.Path.{subst}
use intern_notifs.Identity.Posting.{ProviderPostingReference, PostingIdentity, TypeError}
use intern_notifs.Identity.Decision.{
  Confirmed, Decision, confirmed, RegistryInput, RegistryResult, Routes, Requisition,
  ConflictReason,
}
use intern_notifs.Identity.Conflicts.{
  alias_key, first_conflict, requisitions, references, exact_references, unique_requisitions,
}
use intern_notifs.Identity.Registry.{
  first, from_reference, from_evidence, resolve_posting_identity_decision, previous_for, confirm,
  stale, evidence_expiry, as_unconfirmed, as_quarantined, build, with_reference,
  provider_confirmation,
}
use intern_notifs.Identity.Agree.{unconflicted, from_reference-ConfirmsKey, ConfirmsKey}

-- The same evidence, observed again later.
abbrev pub observed_again : RegistryInput → Decision → ℕ → RegistryInput
observed_again input decision now = record input {
  previous_decision = some decision;
  observed_at = now;
}

module _ (routes : Routes) where
  same_conflict :
      (input : RegistryInput) (d : Decision) (now : ℕ)
      → first_conflict routes (observed_again input d now) ≡ first_conflict routes input
  unfolding first_conflict requisitions references exact_references unique_requisitions
  same_conflict input d now = refl

  same_references :
      (input : RegistryInput) (d : Decision) (now : ℕ)
      → exact_references routes (observed_again input d now) ≡ exact_references routes input
  unfolding references exact_references
  same_references input d now = refl

  confirm-again :
      (c d : Confirmed) (built : Result TypeError PostingIdentity) (result : RegistryResult)
      → confirm c built ≡ ok result
      → result.decision ≡ confirmed d
      → c ≡ d
  unfolding confirm
  confirm-again c d (err thrown) result came h = cc
  confirm-again c d (ok identity) result came h = cc

  -- A result, if it confirms, is the confirmation with this identity.
  abbrev ConfirmsWith : Result TypeError PostingIdentity → Result TypeError RegistryResult → Type 0
  ConfirmsWith built came =
      (result : RegistryResult) (c : Confirmed)
      → came ≡ ok result
      → result.decision ≡ confirmed c
      → confirm c built ≡ ok result

  confirm-ConfirmsWith :
      (d : Confirmed) (built : Result TypeError PostingIdentity)
      → ConfirmsWith built (confirm d built)
  confirm-ConfirmsWith d built result c came h =
      subst (λ x. confirm x built ≡ ok result) (confirm-again d c built result came h) came

  from_reference-ConfirmsWith :
      (input : RegistryInput) (r : ProviderPostingReference)
      → ConfirmsWith (build routes (with_reference input.posting r)) (from_reference routes input r)
  unfolding from_reference as_unconfirmed
  from_reference-ConfirmsWith input r =
      let P = ConfirmsWith (build routes (with_reference input.posting r)) in
      Option_splits P (previous_for input.previous_decision (alias_key r)) _ _
        (λ d _. confirm-ConfirmsWith d _)
        (λ _.
          if_splits P (stale (evidence_expiry input.posting) input.observed_at) _ _
            (λ _ result c came h. cc)
            (λ _. confirm-ConfirmsWith (provider_confirmation routes input r) _))

  kept_reference :
      (input : RegistryInput) (r : ProviderPostingReference) (c : Confirmed) (now : ℕ)
      → c.exact_key ≡ alias_key r
      → from_reference routes (observed_again input (confirmed c) now) r
        ≡ confirm c (build routes (with_reference input.posting r))
  unfolding from_reference
  kept_reference input r c now h = ground (arith, eq_iff c.exact_key (alias_key r))

  settled :
      (input : RegistryInput) (found : Option (ConflictReason × List String))
      (o : Option ProviderPostingReference) (q : Option Requisition) (r : ProviderPostingReference)
      → found ≡ none
      → o ≡ some r
      → elim found [
        | some f ↦ as_quarantined routes input f
        | none ↦ from_evidence routes input o q
      ]
        ≡ from_reference routes input r
  unfolding from_evidence
  settled input none (some s) q r h k = ap (from_reference routes input) (ground arith)
  settled input none none q r h k = cc
  settled input (some f) o q r h k = cc

  resolve_by_reference :
      (input : RegistryInput) (r : ProviderPostingReference)
      → first_conflict routes input ≡ none
      → first (exact_references routes input) ≡ some r
      → resolve_posting_identity_decision routes input ≡ from_reference routes input r
  unfolding resolve_posting_identity_decision
  resolve_by_reference input r h k = settled input (first_conflict routes input) _ _ r h k

  -- A posting that its provider names, once confirmed, keeps the decision and the identity it has:
  -- the same evidence gives the same result at any later time, also when it has expired.
  pub confirmed_is_kept :
      (input : RegistryInput) (result : RegistryResult) (c : Confirmed)
      (r : ProviderPostingReference) (now : ℕ)
      → resolve_posting_identity_decision routes input ≡ ok result
      → result.decision ≡ confirmed c
      → first (exact_references routes input) ≡ some r
      → resolve_posting_identity_decision routes (observed_again input (confirmed c) now)
        ≡ ok result
  unfolding resolve_posting_identity_decision
  confirmed_is_kept input result c r now came h named =
      let again = observed_again input (confirmed c) now in
      let free = unconflicted routes input (first_conflict routes input) _ result c came h in
      let there = sym (resolve_by_reference input r free.0 named) ∙ came in
      let key =
        subst (ConfirmsKey routes (alias_key r)) there
          (from_reference-ConfirmsKey routes input r) in
      resolve_by_reference again r (same_conflict input (confirmed c) now ∙ free.0)
        (ap first (same_references input (confirmed c) now) ∙ named)
      ∙ (kept_reference input r c now (key c h)
          ∙ from_reference-ConfirmsWith input r result c there h)
