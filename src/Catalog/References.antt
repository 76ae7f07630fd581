-- ===== src/Catalog/References.antt =====
-- src/ingestion/catalog-reconciler.ts: the references of a job, and what is read off them.
use intern_notifs.Base.{
  ℕ, String, Bool, true, false, ◌&&◌, ◌||◌, not, Option, none, some, List, [], ◌∷◌, any, ◌==◌,
  is_some, get_or, or_else, str_eq, if◌then◌else◌,
}
use intern_notifs.Identity.Posting.{PostingIdentity, Provider, unknown, non_empty}
use intern_notifs.Identity.Decision.{Decision}
use intern_notifs.Admission.Evidence.{
  CatalogAdmission, Classification, posting_detail, application_form, gone, SourceOccurrence,
  Precision,
}
use intern_notifs.Catalog.Types.{InternshipIdentity, ProcessedListing, IdentityStatus}
use intern_notifs.Catalog.Occurrence.{merge_source_occurrence}

-- The reference that a listing gives to its job.
unfoldable pub occurrence_of : ProcessedListing → String → SourceOccurrence
occurrence_of listing external_id = record (listing.reference) {
  external_id = some external_id;
  technical = some (get_or listing.reference.technical true);
  first_attached_at = none;
  first_attached_precision = none;
}

-- `a || b` on texts
abbrev pub first_text : String → String → String
first_text a b = if str_eq a "" then b else a

abbrev pub is_unknown : Provider → Bool
is_unknown unknown = true
is_unknown _ = false

unfoldable pub merged_posting_identity :
    Option PostingIdentity → Option PostingIdentity → Option PostingIdentity
merged_posting_identity existing none = existing
merged_posting_identity none (some i) = some i
merged_posting_identity (some e) (some i) =
    if str_eq e.canonical_job_id i.canonical_job_id
      && (not (is_unknown e.identity_provider) || is_unknown i.identity_provider)
    then some e
    else some i

abbrev pub any_open : List SourceOccurrence → Bool
any_open references = any (λ r. r.is_open) references

abbrev pub any_open_technical_occurrence : List SourceOccurrence → Bool
any_open_technical_occurrence references =
    any (λ r. r.is_open && get_or r.technical true) references

abbrev pub is_identity_confirmed : SourceOccurrence → Bool
is_identity_confirmed r = elim r.identity_decision [
  | some (Decision.confirmed c) ↦ true
  | _ ↦ false
]

abbrev pub is_identity_unconfirmed : SourceOccurrence → Bool
is_identity_unconfirmed r = elim r.identity_decision [
  | some (Decision.unconfirmed u) ↦ true
  | _ ↦ false
]

unfoldable pub identity_status_of : List SourceOccurrence → Option IdentityStatus
identity_status_of references =
    if any is_identity_confirmed references
    then some IdentityStatus.confirmed
    else if any is_identity_unconfirmed references
    then some IdentityStatus.unconfirmed
    else none

abbrev pub is_explicit : Option InternshipIdentity → Bool
is_explicit none = false
is_explicit (some identity) = identity.season_is_explicit

-- Is it the reference that `external_id` of this source has, or had before it had an id?
abbrev pub is_same_occurrence : String → String → String → ℕ → SourceOccurrence → Bool
is_same_occurrence source_id external_id document row item =
    str_eq item.source_id source_id && elim (non_empty item.external_id) [
      | some id ↦ str_eq id external_id
      | none ↦ str_eq item.document document && (item.row == row)
    ]

abbrev pub is_same : SourceOccurrence → String → SourceOccurrence → Bool
is_same reference external_id =
    is_same_occurrence reference.source_id external_id reference.document reference.row

-- The reference that was found, with the time of its first attachment kept.
unfoldable pub attached_again : SourceOccurrence → SourceOccurrence → SourceOccurrence
unfolding merge_source_occurrence
attached_again item reference =
    let merged = merge_source_occurrence (some item) reference in
    record merged {
      first_attached_at = or_else item.first_attached_at merged.first_attached_at;
      first_attached_precision = some (
          get_or item.first_attached_precision
            (if is_some item.first_attached_at then Precision.exact else Precision.unknown));
    }

abbrev pub attached_now : SourceOccurrence → ℕ → SourceOccurrence
attached_now reference now = record reference {
  first_attached_at = some now;
  first_attached_precision = some Precision.exact;
}

unfoldable pub attach :
    SourceOccurrence → String → ℕ → List SourceOccurrence → List SourceOccurrence
unfolding attached_again
attach reference external_id now [] = attached_now reference now ∷ []
attach reference external_id now (item ∷ rest) =
    let others = attach reference external_id now rest in
    if is_same reference external_id item
    then attached_again item reference ∷ rest
    else item ∷ others

abbrev pub leads_to : Option CatalogAdmission → Option Classification
leads_to none = none
leads_to (some a) = some a.destination.classification

abbrev pub is_gone : Option CatalogAdmission → Bool
is_gone a = elim (leads_to a) [ some gone ↦ true | _ ↦ false ]

abbrev pub is_verified_reopen : Option CatalogAdmission → Bool
is_verified_reopen none = false
is_verified_reopen (some a) = a.catalog_eligible && elim a.destination.classification [
  | posting_detail ↦ true
  | application_form ↦ true
  | _ ↦ false
]

-- `admission?.catalogEligible`, an option of its own
abbrev pub eligibility : Option CatalogAdmission → Option Bool
eligibility none = none
eligibility (some a) = some a.catalog_eligible

abbrev pub from_trusted_community : Option CatalogAdmission → Bool
from_trusted_community none = false
from_trusted_community (some a) = a.catalog_eligible && a.trusted_community

-- Is a job open after a listing was merged into it?
unfoldable pub stays_open : Bool → Bool → Bool → Bool → Bool → Bool
stays_open is_closed keep_quarantined can_revive some_open season_allows =
    if is_closed || keep_quarantined then false else can_revive && some_open && season_allows

-- The URL that is known to be invalid after it.
unfoldable pub known_invalid_url : Bool → Bool → String → Option String → Option String
known_invalid_url is_closed keep_quarantined url before =
    if is_closed then some url else if keep_quarantined then before else none

-- What two omissions in a row do to the references of an occurrence.
abbrev pub closed_where : (SourceOccurrence → Bool) → SourceOccurrence → SourceOccurrence
closed_where same r = if same r then record r { is_open = false } else r
