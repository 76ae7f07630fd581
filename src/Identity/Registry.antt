-- ===== src/Identity/Registry.antt =====
-- src/identity/registry.ts: `resolvePostingIdentityDecision`, where nothing contradicts the evidence or
-- Identity.Conflicts has found what does.
use intern_notifs.Base.{
  ℕ, String, Bool, true, false, ◌&&◌, not, Option, none, some, List, [], ◌∷◌, map, keep, any,
  get_or, str_eq, if◌then◌else◌, Result, err, ok, leb, ◌==◌,
}
use intern_notifs.Base.Sets.{template, unique_by, distinct, sorted_texts}
use intern_notifs.Identity.Posting.{
  provider_name, is_provider, unknown, PostingAlias, ProviderPostingReference, PostingIdentity,
  PostingInput, TypeError, non_empty, input_urls, provider_posting_alias, build_posting_identity,
  provider_posting, provider_route, employer_requisition,
}
use intern_notifs.Identity.Decision.{
  EvidenceKind, immutable_provider_id, authoritative_employer_requisition, reviewed_canonical_url,
  UnconfirmedReason, unrecognized_url_family, under_scoped_id, stale_evidence,
  insufficient_exact_evidence, ConflictReason, evidence_contract_mismatch, Confirmed, Decision,
  confirmed, unconfirmed, quarantined, Requisition, Contract, of_posting, of_requisition, of_url,
  ReviewedCanonicalUrlEvidence, RegistryInput, RegistryResult, Routes,
}
use intern_notifs.Identity.Conflicts.{
  contract_version, named_requisition, alias_key, provider_contract, unique_requisitions,
  exact_references, first_conflict,
}

-- `Boolean(expiresAt && Date.parse(expiresAt) <= Date.parse(observedAt))`
abbrev pub stale : Option ℕ → ℕ → Bool
stale none now = false
stale (some t) now = leb t now

abbrev pub first : {A : Type 0} → List A → Option A
first [] = none
first (x ∷ xs) = some x

abbrev pub claims_kind : EvidenceKind → PostingAlias → Bool
claims_kind immutable_provider_id a = elim a.kind [
  | provider_posting ↦ true
  | provider_route ↦ true
  | _ ↦ false
]
claims_kind authoritative_employer_requisition a = elim a.kind [
  | employer_requisition ↦ true
  | _ ↦ false
]
claims_kind reviewed_canonical_url a = true

-- Only the exact anchor can be claimed.
unfoldable pub claimable_identity : PostingIdentity → String → EvidenceKind → PostingIdentity
claimable_identity identity exact_key kind = record identity {
  aliases =
      unique_by (λ a. a.value)
        (keep (λ a. str_eq a.value exact_key && claims_kind kind a) identity.aliases);
}

-- A confirmation, or what building the identity threw.
unfoldable pub confirm :
    Confirmed → Result TypeError PostingIdentity → Result TypeError RegistryResult
confirm c (err thrown) = err thrown
confirm c (ok identity) = ok (record {
  decision = confirmed c;
  identity = some (claimable_identity identity c.exact_key c.evidence_kind);
})

-- The decision before this one, if it confirmed the key.
abbrev pub previous_for : Option Decision → String → Option Confirmed
previous_for (some (confirmed c)) key = if str_eq c.exact_key key then some c else none
previous_for _ key = none

abbrev pub with_reference : PostingInput → ProviderPostingReference → PostingInput
with_reference p r = record p { reviewed_references = r ∷ [] }

abbrev pub evidence_expiry : PostingInput → Option ℕ
evidence_expiry p = elim p.provider_evidence [ none ↦ none | some e ↦ e.evidence_expires_at ]

module _ (routes : Routes) where
  abbrev pub canonical_url : String → String
  canonical_url url = elim (routes.canonicalize url) [ err _ ↦ routes.trim url | ok u ↦ u ]

  abbrev pub build : PostingInput → Result TypeError PostingIdentity
  build =
      build_posting_identity routes.canonicalize routes.reference_of routes.lower routes.trim
        routes.job_id routes.sort_aliases

  unfoldable pub as_unconfirmed :
      RegistryInput → UnconfirmedReason → Result TypeError RegistryResult
  as_unconfirmed input r = ok (record {
    decision = unconfirmed (record {
      reason = r;
      family_key = routes.review_family input.posting.application_url;
      judged_at = input.observed_at;
    });
    identity = none;
  })

  unfoldable pub as_quarantined :
      RegistryInput → ConflictReason × List String → Result TypeError RegistryResult
  as_quarantined input found = ok (record {
    decision = quarantined (record {
      conflict = found.0;
      contradictory_evidence = sorted_texts (distinct found.1);
      conflict_family_key = routes.review_family input.posting.application_url;
      quarantined_at = input.observed_at;
    });
    identity = none;
  })

  abbrev contract_for : ProviderPostingReference → Contract
  contract_for r = record {
    id = provider_contract (provider_name r.provider);
    version = contract_version;
    approval =
        template (
          "registry:" ∷ provider_name r.provider ∷ ":v" ∷ routes.number_text contract_version ∷ []);
  }

  unfoldable pub provider_confirmation : RegistryInput → ProviderPostingReference → Confirmed
  provider_confirmation input r =
      let p = input.posting in
      let contract = contract_for r in
      let evidence = p.provider_evidence in
      record {
        exact_key = alias_key r;
        evidence_kind = immutable_provider_id;
        provider_known = some r.provider;
        tenant_known = non_empty r.tenant;
        employer_known = none;
        contract_id = contract.id;
        contract_version = contract.version;
        approval_reference =
            get_or (elim evidence [ none ↦ none | some e ↦ e.evidence_approval ]) contract.approval;
        hash =
            get_or (elim evidence [ none ↦ none | some e ↦ e.evidence_hash ])
              (routes.digest (
                of_posting (alias_key r) (sorted_texts (map canonical_url (input_urls p)))
                  contract));
        confirmed_at = input.observed_at;
      }

  -- One provider names the posting.
  unfoldable pub from_reference :
      RegistryInput → ProviderPostingReference → Result TypeError RegistryResult
  from_reference input r =
      let identity = build (with_reference input.posting r) in
      elim (previous_for input.previous_decision (alias_key r)) [
        | some c ↦ confirm c identity
        | none ↦
            if stale (evidence_expiry input.posting) input.observed_at
            then as_unconfirmed input stale_evidence
            else confirm (provider_confirmation input r) identity
      ]

  unfoldable pub requisition_confirmation : RegistryInput → Requisition → Confirmed
  requisition_confirmation input r =
      let contract : Contract = record {
        id = "authoritative-employer-requisition";
        version = contract_version;
        approval = template ("employer:" ∷ r.employer ∷ []);
      } in
      record {
        exact_key = named_requisition r;
        evidence_kind = authoritative_employer_requisition;
        provider_known = none;
        tenant_known = none;
        employer_known = some r.employer;
        contract_id = contract.id;
        contract_version = contract.version;
        approval_reference = contract.approval;
        hash = routes.digest (of_requisition (named_requisition r) contract);
        confirmed_at = input.observed_at;
      }

  -- The employer names the posting.
  unfoldable pub from_requisition : RegistryInput → Requisition → Result TypeError RegistryResult
  from_requisition input r = confirm (requisition_confirmation input r) (
      build (record input.posting {
        employer_id = some r.employer;
        requisition_id = some r.requisition;
        is_authoritative = some true;
      }))

  unfoldable pub url_confirmation : RegistryInput → ReviewedCanonicalUrlEvidence → Confirmed
  url_confirmation input u = record {
    exact_key = template ("url:" ∷ canonical_url u.reviewed_url ∷ []);
    evidence_kind = reviewed_canonical_url;
    provider_known = none;
    tenant_known = none;
    employer_known = none;
    contract_id = u.url_contract_id;
    contract_version = u.url_contract_version;
    approval_reference = u.url_approval;
    hash = u.url_hash;
    confirmed_at = input.observed_at;
  }

  -- Does the approval of a URL hold for this posting?
  unfoldable pub url_approved : RegistryInput → ReviewedCanonicalUrlEvidence → Bool
  url_approved input u =
      let expected = canonical_url u.reviewed_url in
      str_eq u.url_contract_id "reviewed-canonical-url"
      && u.url_contract_version == contract_version
      && any (λ url. str_eq (canonical_url url) expected) (input_urls input.posting)
      && str_eq u.url_hash (
          routes.digest
            (of_url (canonical_url expected) "reviewed-canonical-url" u.url_contract_version))

  -- A reviewer named the URL.
  unfoldable pub from_reviewed_url :
      RegistryInput → ReviewedCanonicalUrlEvidence → Result TypeError RegistryResult
  from_reviewed_url input u =
      let fresh = url_confirmation input u in
      let identity =
        build (record input.posting { final_official_url = some (canonical_url u.reviewed_url) }) in
      if not (url_approved input u)
      then as_quarantined input (evidence_contract_mismatch, u.url_contract_id ∷ u.url_hash ∷ [])
      else if stale u.url_expires_at input.observed_at
      then elim (previous_for input.previous_decision fresh.exact_key) [
        | some c ↦ confirm c identity
        | none ↦ as_unconfirmed input stale_evidence
      ]
      else confirm fresh identity

  -- `previousProviderReference`, with the decision that it keeps.
  abbrev pub retained :
      Option Decision → List String → Option (Confirmed × ProviderPostingReference)
  retained previous [] = none
  retained previous (url ∷ rest) =
      let later = retained previous rest in
      elim previous [
        | some (confirmed c) ↦ elim c.evidence_kind [
          | immutable_provider_id ↦ elim (routes.reference_of url) [
            | err _ ↦ later
            | ok r ↦
                if elim (provider_posting_alias r) [ none ↦ false | some a ↦ str_eq a c.exact_key ]
                then some (c, r)
                else later
          ]
          | _ ↦ none
        ]
        | _ ↦ none
      ]

  abbrev is_recognizable : String → Bool
  is_recognizable url = elim (routes.reference_of url) [
    | err _ ↦ false
    | ok r ↦ not (is_provider r.provider unknown)
  ]

  -- Nothing names the posting now.
  unfoldable pub from_previous : RegistryInput → Result TypeError RegistryResult
  from_previous input =
      let urls = input_urls input.posting in
      elim (retained input.previous_decision urls) [
        | some kept ↦ confirm kept.0 (build (with_reference input.posting kept.1))
        | none ↦ as_unconfirmed input (
            if any routes.is_unscoped_embed urls
            then under_scoped_id
            else if any is_recognizable urls
            then insufficient_exact_evidence
            else unrecognized_url_family)
      ]

  -- The evidence without contradictions, the strongest first.
  unfoldable pub from_evidence :
      RegistryInput
      → Option ProviderPostingReference
      → Option Requisition
      → Result TypeError RegistryResult
  from_evidence input (some reference) r = from_reference input reference
  from_evidence input none (some requisition) = from_requisition input requisition
  from_evidence input none none = elim input.reviewed_canonical [
    | some u ↦ from_reviewed_url input u
    | none ↦ from_previous input
  ]

  unfoldable pub resolve_posting_identity_decision : RegistryInput → Result TypeError RegistryResult
  resolve_posting_identity_decision input = elim (first_conflict routes input) [
    | some found ↦ as_quarantined input found
    | none ↦
        from_evidence input (first (exact_references routes input))
          (first (unique_requisitions routes input))
  ]
