-- ===== src/Admission/Evaluate.antt =====
-- src/catalog-admission.ts: `evaluateCatalogAdmission`. `is_generic` is `isGenericEmployerLabel`, a
-- test of a label by patterns of words.
use intern_notifs.Base.{
  ℕ, ◌+◌, String, Bool, true, false, ◌&&◌, ◌||◌, not, Option, none, some, List, [], ◌∷◌, ◌++◌, ltb,
  ◌==◌, any, get_or, or_else, is_some, if◌then◌else◌,
}
use intern_notifs.Admission.Evidence.{
  posting_detail, application_form, aggregate_board, blocked_uninspectable, gone, unresolved,
  CanonicalEmployer, DestinationEvidence, MetadataCompleteness, Reason, employer_unresolved,
  employer_generic_label, employer_conflict, posting_unattributed, destination_aggregate_board,
  destination_blocked_uninspectable, destination_gone, destination_unresolved, destination_grace,
  destination_stale, metadata_title_missing, metadata_title_truncated, metadata_title_malformed,
  metadata_title_approximate_repair, metadata_conflict, metadata_location_truncated,
  metadata_location_malformed, EmployerResolution, CatalogAdmission, AlertMode,
  exact_identity_or_two_complete_snapshots, QualificationStatus, AlertQualification,
}
use intern_notifs.Admission.Metadata.{metadata_completeness, metadata_reasons}

-- Seven days.
abbrev pub evidence_ttl_ms : ℕ
evidence_ttl_ms = 604800000

abbrev pub destination_reason : DestinationEvidence → Option Reason
destination_reason d = elim d.classification [
  | aggregate_board ↦ some destination_aggregate_board
  | blocked_uninspectable ↦ some destination_blocked_uninspectable
  | gone ↦ some destination_gone
  | unresolved ↦ some destination_unresolved
  | _ ↦ none
]

abbrev pub exact_role_destination : DestinationEvidence → Bool
exact_role_destination d = elim d.classification [
  | posting_detail ↦ true
  | application_form ↦ true
  | _ ↦ false
]

abbrev pub is_inconclusive : DestinationEvidence → Bool
is_inconclusive d = elim d.classification [
  | unresolved ↦ true
  | blocked_uninspectable ↦ true
  | _ ↦ false
]

unfoldable pub last_successful_verification : Option CatalogAdmission → Option ℕ
last_successful_verification none = none
last_successful_verification (some previous) = or_else previous.last_verified_at (
    if previous.catalog_eligible && exact_role_destination previous.destination
    then previous.destination.inspected_at
    else none)

-- The alphabetical place of a reason, by which `sort` orders them.
abbrev pub rank : Reason → ℕ
rank destination_aggregate_board = 0
rank destination_blocked_uninspectable = 1
rank destination_gone = 2
rank destination_grace = 3
rank destination_stale = 4
rank destination_unresolved = 5
rank employer_conflict = 6
rank employer_generic_label = 7
rank employer_unresolved = 8
rank metadata_conflict = 9
rank metadata_location_malformed = 10
rank metadata_location_truncated = 11
rank metadata_title_approximate_repair = 12
rank metadata_title_malformed = 13
rank metadata_title_missing = 14
rank metadata_title_truncated = 15
rank posting_unattributed = 16

pub add_reason : Reason → List Reason → List Reason
add_reason r [] = r ∷ []
add_reason r (s ∷ rest) =
    let later = add_reason r rest in
    if rank r == rank s then s ∷ rest else if ltb (rank r) (rank s) then r ∷ s ∷ rest else s ∷ later

-- `[...new Set(reasons)].sort()`
unfoldable pub sorted_reasons : List Reason → List Reason
unfolding add_reason
sorted_reasons [] = []
sorted_reasons (r ∷ rest) = add_reason r (sorted_reasons rest)

abbrev is_open_question : Reason → Bool
is_open_question destination_unresolved = true
is_open_question destination_blocked_uninspectable = true
is_open_question _ = false

-- The first open question about the destination becomes the reason of the grace period.
abbrev pub with_grace : List Reason → List Reason
with_grace [] = []
with_grace (r ∷ rest) =
    let later = with_grace rest in
    if is_open_question r then destination_grace ∷ rest else r ∷ later

-- Does the reason block the admission?
abbrev pub is_blocking : Bool → Reason → Bool
is_blocking trusted destination_grace = false
is_blocking trusted employer_unresolved = not trusted
is_blocking trusted posting_unattributed = not trusted
is_blocking trusted _ = true

-- What is read of the listing: the employer of its evidence, its label and its metadata.
pub record Listing : Type 0 where
  pub employer : Option CanonicalEmployer
  pub company : String
  pub metadata_completeness : Option MetadataCompleteness
  pub title : List ℕ
  pub locations : List (List ℕ)
  pub title_repaired : Bool

pub record TrustedCommunity : Type 0 where
  pub alert_mode : AlertMode
  pub qualification : AlertQualification

pub record Evaluation : Type 0 where
  pub listing : Listing
  pub destination : DestinationEvidence
  pub posting_attributed : Bool
  pub evaluated_at : ℕ
  pub trusted_community : Option TrustedCommunity

abbrev pub is_suppressed : Option TrustedCommunity → Bool
is_suppressed none = false
is_suppressed (some t) = get_or t.qualification.catalog_publication_suppressed false

-- May the posting raise alerts as far as its source's policy goes?
abbrev pub alerts_allowed : Option TrustedCommunity → Bool
alerts_allowed none = true
alerts_allowed (some t) =
    elim t.alert_mode [ exact_identity_or_two_complete_snapshots ↦ true | _ ↦ false ]
    && elim t.qualification.status [ QualificationStatus.eligible ↦ true | _ ↦ false ]
    && not t.qualification.baseline_suppressed

-- The time of the last verification that the decision rests on.
unfoldable pub verified_at : Evaluation → Option CatalogAdmission → Option ℕ
verified_at e previous =
    if exact_role_destination e.destination && e.posting_attributed
    then e.destination.inspected_at
    else last_successful_verification previous

-- The end of the grace period, if there is one.
unfoldable pub grace_end : Evaluation → Option CatalogAdmission → Option ℕ
grace_end e previous =
    if is_some e.trusted_community || not (is_inconclusive e.destination)
    then none
    else elim (verified_at e previous) [ none ↦ none | some t ↦ some (t + evidence_ttl_ms) ]

unfoldable pub in_grace : Evaluation → Option CatalogAdmission → Bool
in_grace e previous = elim (grace_end e previous) [ none ↦ false | some t ↦ ltb e.evaluated_at t ]

-- What the destination of a role in its grace period is written down as.
abbrev pub graced :
    DestinationEvidence → Option ℕ → Bool → Option CatalogAdmission → DestinationEvidence
graced d verified graceful none = d
graced d verified graceful (some previous) =
    if graceful
    then record d {
      final_url = some (get_or previous.destination.final_url previous.destination.candidate_url);
      last_known_good_at = or_else verified d.last_known_good_at;
      valid_through = or_else previous.destination.valid_through d.valid_through;
      fresh_until = or_else previous.destination.fresh_until d.fresh_until;
    }
    else d

module _ (is_generic : String → Bool) where
  unfoldable pub label_is_generic : Listing → Bool
  label_is_generic l = is_generic (elim l.employer [ none ↦ l.company | some e ↦ e.display_name ])

  -- The reasons, in the order in which the code finds them.
  unfoldable pub reasons : Evaluation → List Reason
  reasons e =
      let l = e.listing in
      metadata_reasons (
        get_or l.metadata_completeness (metadata_completeness l.title l.locations l.title_repaired))
      ++ ((if is_some l.employer then [] else employer_unresolved ∷ [])
          ++ ((if label_is_generic l then employer_generic_label ∷ [] else [])
              ++ ((if e.posting_attributed then [] else posting_unattributed ∷ [])
                  ++ elim (destination_reason e.destination) [ none ↦ [] | some r ↦ r ∷ [] ])))

  unfoldable pub final_reasons : Evaluation → Option CatalogAdmission → List Reason
  final_reasons e previous = if in_grace e previous then with_grace (reasons e) else reasons e

  unfoldable pub is_eligible : Evaluation → Option CatalogAdmission → Bool
  is_eligible e previous =
      not (is_suppressed e.trusted_community)
      && not (any (is_blocking (is_some e.trusted_community)) (final_reasons e previous))
      && (exact_role_destination e.destination || in_grace e previous)

  unfoldable pub evaluate_catalog_admission :
      Evaluation → Option CatalogAdmission → CatalogAdmission
  evaluate_catalog_admission e previous =
      let l = e.listing in
      let employer : Option CanonicalEmployer = if label_is_generic l then none else l.employer in
      let eligible : Bool = is_eligible e previous in
      record {
        canonical_employer = employer;
        employer_resolution =
            if is_some employer
            then EmployerResolution.resolved
            else if is_some e.trusted_community
            then EmployerResolution.source_reported
            else EmployerResolution.unresolved;
        attributed = e.posting_attributed;
        destination = graced e.destination (verified_at e previous) (in_grace e previous) previous;
        metadata =
            get_or l.metadata_completeness
              (metadata_completeness l.title l.locations l.title_repaired);
        catalog_eligible = eligible;
        alert_eligible =
            eligible && not (in_grace e previous) && alerts_allowed e.trusted_community;
        reason_codes = sorted_reasons (final_reasons e previous);
        trusted_community = is_some e.trusted_community;
        evaluated_at = e.evaluated_at;
        evidence_observed_at = e.destination.inspected_at;
        last_verified_at = verified_at e previous;
        grace_deadline = grace_end e previous;
      }
