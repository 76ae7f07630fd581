-- ===== src/Identity/Conflicts.antt =====
-- src/identity/registry.ts: the first part of `resolvePostingIdentityDecision`, which looks for
-- contradictions in the evidence of a posting.
use intern_notifs.Base.{
  ℕ, String, Bool, false, ◌&&◌, ◌||◌, not, Option, none, some, List, [], ◌∷◌, ◌++◌, map, keep,
  get_or, or_else, str_eq, if◌then◌else◌, err, ok, ltb, ◌==◌, length,
}
use intern_notifs.Base.Sets.{template, unique_by, distinct}
use intern_notifs.Identity.Posting.{
  provider_name, is_provider, unknown, ProviderPostingReference, ProviderPostingEvidence,
  PostingInput, non_empty, input_urls, provider_posting_alias, is_exact_route, has_posting_id,
  explicit_references,
}
use intern_notifs.Identity.Evidence.{reviewed_provider_evidence_error}
use intern_notifs.Identity.Decision.{
  ConflictReason, multiple_immutable_provider_postings, provider_scope_mismatch,
  employer_scope_mismatch, multiple_authoritative_requisitions, evidence_contract_mismatch,
  Requisition, RegistryInput, Routes,
}

abbrev pub contract_version : ℕ
contract_version = 1

abbrev pub more_than_one : {A : Type 0} → List A → Bool
more_than_one xs = ltb 1 (length xs)

abbrev pub requisition_key : Requisition → String
requisition_key r = template (r.employer ∷ "\0" ∷ r.requisition ∷ [])

abbrev pub named_requisition : Requisition → String
named_requisition r = template ("requisition:" ∷ r.employer ∷ ":" ∷ r.requisition ∷ [])

abbrev pub alias_key : ProviderPostingReference → String
alias_key r = get_or (provider_posting_alias r) "undefined"

abbrev pub scope_of : ProviderPostingReference → String
scope_of r = template (provider_name r.provider ∷ ":" ∷ get_or r.tenant "-" ∷ [])

abbrev pub provider_contract : String → String
provider_contract name = template ("posting-provider-" ∷ name ∷ [])

module _ (routes : Routes) where
  abbrev contract_differs : ProviderPostingEvidence → Bool
  contract_differs e =
      elim e.evidence_contract_version [ none ↦ false | some v ↦ not (v == contract_version) ]
      || elim e.evidence_contract_id [
        | none ↦ false
        | some id ↦ not (str_eq id (provider_contract (provider_name e.evidence_provider)))
      ]

  -- Is the evidence of the provider refused, and why?
  unfoldable pub evidence_conflict :
      Option ProviderPostingEvidence → Option (ConflictReason × List String)
  evidence_conflict none = none
  evidence_conflict (some e) =
      elim (reviewed_provider_evidence_error routes.lower routes.greenhouse_sources
        routes.lever_sources e) [
          | some message ↦ some (evidence_contract_mismatch, message ∷ [])
          | none ↦
              if contract_differs e
              then some (
                evidence_contract_mismatch,
                template (
                      get_or e.evidence_contract_id "missing"
                      ∷ "@"
                      ∷ elim e.evidence_contract_version [
                        | none ↦ "missing"
                        | some v ↦ routes.number_text v
                      ]
                      ∷ [])
                    ∷ template (
                        provider_contract (provider_name e.evidence_provider)
                        ∷ "@"
                        ∷ routes.number_text contract_version
                        ∷ [])
                    ∷ [],
              )
              else none
        ]

  abbrev own_requisition : PostingInput → List Requisition
  own_requisition p = elim (non_empty p.employer_id) [
    | none ↦ []
    | some employer ↦ elim p.requisition_id [
      | none ↦ []
      | some id ↦
          if get_or p.is_authoritative false && not (str_eq (routes.trim id) "")
          then record { employer = employer; requisition = routes.trim id } ∷ []
          else []
    ]
  ]

  abbrev tidy_requisition : Requisition → Requisition
  tidy_requisition r = record {
    employer = routes.trim r.employer;
    requisition = routes.lower (routes.trim r.requisition);
  }

  abbrev is_named : Requisition → Bool
  is_named r = not (str_eq r.employer "") && not (str_eq r.requisition "")

  unfoldable pub requisitions : RegistryInput → List Requisition
  requisitions input =
      keep is_named
        (map tidy_requisition (own_requisition input.posting ++ input.authoritative_requisitions))

  unfoldable pub unique_requisitions : RegistryInput → List Requisition
  unique_requisitions input = unique_by requisition_key (requisitions input)

  unfoldable pub requisition_conflict : List Requisition → Option (ConflictReason × List String)
  requisition_conflict unique =
      let scopes = distinct (map (λ r. r.employer) unique) in
      if more_than_one scopes
      then some (employer_scope_mismatch, scopes)
      else if more_than_one unique
      then some (multiple_authoritative_requisitions, map named_requisition unique)
      else none

  -- The references that URLs name; a text that is no URL names none.
  abbrev route_references : List String → List ProviderPostingReference
  route_references [] = []
  route_references (url ∷ rest) =
      let later = route_references rest in
      elim (routes.reference_of url) [
        | err _ ↦ later
        | ok r ↦
            if is_exact_route r && not (is_provider r.provider unknown) then r ∷ later else later
      ]

  abbrev tidy_reference : ProviderPostingReference → ProviderPostingReference
  tidy_reference r = record r {
    tenant = elim r.tenant [ none ↦ none | some t ↦ some (routes.lower t) ];
    posting_id = elim r.posting_id [ none ↦ none | some id ↦ some (routes.lower id) ];
  }

  unfoldable pub references : RegistryInput → List ProviderPostingReference
  references input = map tidy_reference (
      keep (λ r. not (is_provider r.provider unknown) && has_posting_id r)
        (explicit_references routes.canonicalize routes.reference_of routes.lower routes.trim
            routes.job_id routes.sort_aliases input.posting
          ++ (input.posting.reviewed_references ++ route_references (input_urls input.posting))))

  unfoldable pub exact_references : RegistryInput → List ProviderPostingReference
  exact_references input = unique_by alias_key (references input)

  unfoldable pub provider_conflict :
      List ProviderPostingReference → Option (ConflictReason × List String)
  provider_conflict exact =
      let scopes = distinct (map scope_of exact) in
      if more_than_one scopes
      then some (provider_scope_mismatch, scopes)
      else if more_than_one exact
      then some (multiple_immutable_provider_postings, map alias_key exact)
      else none

  -- The first contradiction in the evidence, in the order of the tests.
  unfoldable pub first_conflict : RegistryInput → Option (ConflictReason × List String)
  first_conflict input = or_else (evidence_conflict input.posting.provider_evidence) (
      or_else (requisition_conflict (unique_requisitions input))
        (provider_conflict (exact_references input)))
