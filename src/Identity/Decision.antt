-- ===== src/Identity/Decision.antt =====
-- src/types.ts, src/identity/registry.ts: the decision on the identity of a posting, and what it is
-- made from. `Routes` is what the registry calls: the parsing of URLs (`canonicalizePostingUrl`,
-- `providerPostingReference`, `unscopedGreenhouseEmbedPostingId`, `postingReviewFamily`), hashes, and
-- the methods of texts.
use intern_notifs.Base.{ℕ, String, Bool, Option, List, Result}
use intern_notifs.Identity.Posting.{
  Provider, PostingAlias, ProviderPostingReference, PostingIdentity, PostingInput, TypeError,
}

pub data EvidenceKind : Type 0 where
  immutable_provider_id authoritative_employer_requisition reviewed_canonical_url : EvidenceKind

pub data UnconfirmedReason : Type 0 where
  unrecognized_url_family under_scoped_id stale_evidence insufficient_exact_evidence :
      UnconfirmedReason

pub data ConflictReason : Type 0 where
  aliases_resolve_to_different_jobs multiple_immutable_provider_postings provider_scope_mismatch :
      ConflictReason
  employer_scope_mismatch multiple_authoritative_requisitions evidence_contract_mismatch :
      ConflictReason

pub record Confirmed : Type 0 where
  pub exact_key : String
  pub evidence_kind : EvidenceKind
  pub provider_known : Option Provider
  pub tenant_known : Option String
  pub employer_known : Option String
  pub contract_id : String
  pub contract_version : ℕ
  pub approval_reference : String
  pub hash : String
  pub confirmed_at : ℕ

pub record Unconfirmed : Type 0 where
  pub reason : UnconfirmedReason
  pub family_key : String
  pub judged_at : ℕ

pub record Quarantined : Type 0 where
  pub conflict : ConflictReason
  pub contradictory_evidence : List String
  pub conflict_family_key : String
  pub quarantined_at : ℕ

pub data Decision : Type 0 where
  confirmed : Confirmed → Decision
  unconfirmed : Unconfirmed → Decision
  quarantined : Quarantined → Decision

pub record Requisition : Type 0 where
  pub employer : String
  pub requisition : String

pub record Contract : Type 0 where
  pub id : String
  pub version : ℕ
  pub approval : String

-- The objects that the registry hashes.
pub data Hashed : Type 0 where
  of_posting : String → List String → Contract → Hashed
  of_requisition : String → Contract → Hashed
  of_url : String → String → ℕ → Hashed

pub record ReviewedCanonicalUrlEvidence : Type 0 where
  pub reviewed_url : String
  pub url_contract_id : String
  pub url_contract_version : ℕ
  pub url_approval : String
  pub url_hash : String
  pub url_expires_at : Option ℕ

pub record RegistryInput : Type 0 where
  pub posting : PostingInput
  pub observed_at : ℕ
  pub reviewed_canonical : Option ReviewedCanonicalUrlEvidence
  pub authoritative_requisitions : List Requisition
  pub previous_decision : Option Decision

pub record RegistryResult : Type 0 where
  pub decision : Decision
  pub identity : Option PostingIdentity

pub record Routes : Type 0 where
  pub canonicalize : String → Result TypeError String
  pub reference_of : String → Result TypeError ProviderPostingReference
  pub is_unscoped_embed : String → Bool
  pub review_family : String → String
  pub lower : String → String
  pub trim : String → String
  pub number_text : ℕ → String
  pub digest : Hashed → String
  pub job_id : String → String
  pub sort_aliases : List PostingAlias → List PostingAlias
  pub greenhouse_sources : List (String × String)
  pub lever_sources : List (String × String)
