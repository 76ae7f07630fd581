-- ===== src/Identity/Posting.antt =====
-- src/identity/posting.ts, src/types.ts: the identity of a posting, built from its URLs and from what
-- its provider says of it. What parses a URL is a parameter: `canonicalize` is
-- `canonicalizePostingUrl` and `reference_of` is `providerPostingReference`, which both throw on a text
-- that is no URL. `lower` and `trim` are those of texts, `sort_aliases` sorts by `localeCompare`, and
-- `job_id` is `stableCanonicalJobId`, a SHA-256 hash.
use intern_notifs.Base.{
  ℕ, String, Bool, false, ◌&&◌, not, Option, none, some, List, [], ◌∷◌, ◌++◌, keep, get_or, str_eq,
  if◌then◌else◌, Result, ok, ◌>>=◌, is_some,
}
use intern_notifs.Base.Sets.{template, unique_by}

pub data Provider : Type 0 where
  greenhouse lever ashby workday bytedance tesla meta janestreet goldman_sachs imc unknown :
      Provider

abbrev pub provider_name : Provider → String
provider_name greenhouse = "greenhouse"
provider_name lever = "lever"
provider_name ashby = "ashby"
provider_name workday = "workday"
provider_name bytedance = "bytedance"
provider_name tesla = "tesla"
provider_name meta = "meta"
provider_name janestreet = "janestreet"
provider_name goldman_sachs = "goldman-sachs"
provider_name imc = "imc"
provider_name unknown = "unknown"

pub data AliasKind : Type 0 where
  provider_posting employer_requisition provider_route official_url application_url : AliasKind

abbrev kind_name : AliasKind → String
kind_name provider_posting = "provider-posting"
kind_name employer_requisition = "employer-requisition"
kind_name provider_route = "provider-route"
kind_name official_url = "official-url"
kind_name application_url = "application-url"

pub record PostingAlias : Type 0 where
  pub kind : AliasKind
  pub value : String
  pub source_url : Option String

pub record ProviderPostingReference : Type 0 where
  pub provider : Provider
  pub tenant : Option String
  pub posting_id : Option String

pub record ProviderPostingEvidence : Type 0 where
  pub evidence_provider : Provider
  pub evidence_tenant : String
  pub evidence_posting_id : String
  pub evidence_source_id : String
  pub evidence_urls : List String
  pub evidence_contract_id : Option String
  pub evidence_contract_version : Option ℕ
  pub evidence_approval : Option String
  pub evidence_hash : Option String
  -- `none` is a date that is missing or cannot be read.
  pub evidence_expires_at : Option ℕ

pub record PostingIdentity : Type 0 where
  pub identity_provider : Provider
  pub identity_tenant : Option String
  pub provider_posting_id : Option String
  pub employer_requisition_id : Option String
  pub requisition_authoritative : Option Bool
  pub canonical_application_url : String
  pub aliases : List PostingAlias
  pub canonical_job_id : String

-- `BuildPostingIdentityInput`. A list that is absent is empty.
pub record PostingInput : Type 0 where
  pub application_url : String
  pub observed_urls : List String
  pub final_official_url : Option String
  pub provider_evidence : Option ProviderPostingEvidence
  pub reviewed_references : List ProviderPostingReference
  pub employer_id : Option String
  pub requisition_id : Option String
  pub is_authoritative : Option Bool

pub data TypeError : Type 0 where
  invalid_url : TypeError

-- An optional text counts if it is there and not empty.
abbrev pub non_empty : Option String → Option String
non_empty none = none
non_empty (some s) = if str_eq s "" then none else some s

abbrev pub listed : Option String → List String
listed none = []
listed (some s) = s ∷ []

abbrev pub is_provider : Provider → Provider → Bool
is_provider p q = str_eq (provider_name p) (provider_name q)

-- The URLs of an input, the presentation URLs of its evidence among them.
unfoldable pub input_urls : PostingInput → List String
input_urls input =
    input.application_url ∷ elim input.provider_evidence [ none ↦ [] | some e ↦ e.evidence_urls ]
    ++ (input.observed_urls ++ listed (non_empty input.final_official_url))

unfoldable pub provider_posting_alias : ProviderPostingReference → Option String
provider_posting_alias r =
    if is_provider r.provider unknown then none else elim (non_empty r.posting_id) [
      | none ↦ none
      | some id ↦ some (
          template
            ("provider:" ∷ provider_name r.provider ∷ ":" ∷ get_or r.tenant "-" ∷ ":" ∷ id ∷ []))
    ]

-- Routes of Greenhouse and Lever are no evidence of their own.
abbrev pub is_exact_route : ProviderPostingReference → Bool
is_exact_route r = not (is_provider r.provider greenhouse) && not (is_provider r.provider lever)

abbrev pub has_posting_id : ProviderPostingReference → Bool
has_posting_id r = is_some (non_empty r.posting_id)

-- `items.map(step)`, where a step may throw.
abbrev pub each : {A B : Type 0} → (A → Result TypeError B) → List A → Result TypeError (List B)
each step [] = ok []
each step (a ∷ rest) = do first ← step a; others ← each step rest; ok (first ∷ others)

-- The aliases of one reference, as routes.
abbrev route_aliases : List ProviderPostingReference → List PostingAlias
route_aliases [] = []
route_aliases (r ∷ rest) =
    let later = route_aliases rest in
    elim (provider_posting_alias r) [
      | none ↦ later
      | some a ↦ record { kind = provider_route; value = a; source_url = none } ∷ later
    ]

abbrev posting_alias : Option String → List PostingAlias
posting_alias none = []
posting_alias (some a) = record { kind = provider_posting; value = a; source_url = none } ∷ []

abbrev first_requisition : List PostingAlias → Option String
first_requisition [] = none
first_requisition (a ∷ rest) =
    let later = first_requisition rest in
    elim a.kind [ employer_requisition ↦ some a.value | _ ↦ later ]

abbrev first_reference : List ProviderPostingReference → ProviderPostingReference
first_reference [] = record { provider = unknown; tenant = none; posting_id = none }
first_reference (r ∷ rest) = r

module _ (canonicalize : String → Result TypeError String)
    (reference_of : String → Result TypeError ProviderPostingReference)
    (lower trim job_id : String → String)
    (sort_aliases : List PostingAlias → List PostingAlias) where
  abbrev url_alias : Option String → String → Result TypeError PostingAlias
  url_alias official url = do
    canonical ← canonicalize url
    ok (record {
      kind = elim official [
        | none ↦ application_url
        | some o ↦ if str_eq url o then official_url else application_url
      ];
      value = template ("url:" ∷ canonical ∷ []);
      source_url = non_empty (some url);
    })

  abbrev pub evidence_reference : ProviderPostingEvidence → ProviderPostingReference
  evidence_reference e = record {
    provider = e.evidence_provider;
    tenant = some (lower e.evidence_tenant);
    posting_id = some (lower e.evidence_posting_id);
  }

  abbrev pub explicit_references : PostingInput → List ProviderPostingReference
  explicit_references input = elim input.provider_evidence [
    | none ↦ []
    | some e ↦ evidence_reference e ∷ []
  ]

  abbrev requisition_alias : PostingInput → List PostingAlias
  requisition_alias input = elim (non_empty input.requisition_id) [
    | none ↦ []
    | some id ↦ elim (non_empty input.employer_id) [
      | none ↦ []
      | some employer ↦
          if get_or input.is_authoritative false
          then record {
            kind = employer_requisition;
            value = template ("requisition:" ∷ employer ∷ ":" ∷ lower (trim id) ∷ []);
            source_url = none;
          }
            ∷ []
          else []
    ]
  ]

  -- The references of an input, those of evidence before its routes.
  unfoldable pub references_of :
      PostingInput → List ProviderPostingReference → List ProviderPostingReference
  references_of input routes =
      keep has_posting_id
        (explicit_references input ++ (input.reviewed_references ++ keep is_exact_route routes))

  abbrev unique_aliases :
      PostingInput → List ProviderPostingReference → List PostingAlias → List PostingAlias
  unique_aliases input references url_aliases = sort_aliases (
      unique_by (λ a. template (kind_name a.kind ∷ ":" ∷ a.value ∷ []))
        (url_aliases
          ++ (route_aliases references
              ++ (posting_alias (provider_posting_alias (first_reference references))
                  ++ requisition_alias input))))

  abbrev assembled :
      PostingInput → String → List ProviderPostingReference → List PostingAlias → PostingIdentity
  assembled input canonical routes url_aliases =
      let references = references_of input routes in
      let primary = first_reference references in
      let unique = unique_aliases input references url_aliases in
      record {
        identity_provider = primary.provider;
        identity_tenant = non_empty primary.tenant;
        provider_posting_id = non_empty primary.posting_id;
        employer_requisition_id = non_empty input.requisition_id;
        requisition_authoritative = input.is_authoritative;
        canonical_application_url = canonical;
        aliases = unique;
        canonical_job_id = job_id (
            get_or (provider_posting_alias primary)
              (get_or (first_requisition unique) (template ("url:" ∷ canonical ∷ []))));
      }

  unfoldable pub build_posting_identity : PostingInput → Result TypeError PostingIdentity
  build_posting_identity input = do
    canonical ← canonicalize (get_or input.final_official_url input.application_url)
    routes ← each reference_of (input_urls input)
    url_aliases ← each (url_alias input.final_official_url) (input_urls input)
    ok (assembled input canonical routes url_aliases)
