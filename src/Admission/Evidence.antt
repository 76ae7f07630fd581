-- ===== src/Admission/Evidence.antt =====
-- src/types.ts: a catalog admission and the evidence it rests on. An instant is a number of
-- milliseconds since the epoch; one that is missing, empty or unreadable is `none`.
use intern_notifs.Base.{ℕ, String, Bool, Option, List}
use intern_notifs.Identity.Posting.{ProviderPostingEvidence}
use intern_notifs.Identity.Decision.{Decision}

pub data Classification : Type 0 where
  posting_detail application_form aggregate_board blocked_uninspectable gone unresolved :
      Classification

pub record CanonicalEmployer : Type 0 where
  pub id : String
  pub display_name : String

-- The fields of the evidence that a decision reads or writes.
pub record DestinationEvidence : Type 0 where
  pub classification : Classification
  pub candidate_url : String
  pub final_url : Option String
  pub provider : String
  pub tenant : Option String
  pub expected_posting_id : Option String
  pub inspected_at : Option ℕ
  pub valid_through : Option ℕ
  pub fresh_until : Option ℕ
  pub last_known_good_at : Option ℕ
  pub browser_visible : Option Bool

pub data TitleState : Type 0 where
  complete missing truncated malformed approximate_repair : TitleState

pub data LocationState : Type 0 where
  complete not_specified truncated malformed : LocationState

pub record MetadataCompleteness : Type 0 where
  pub is_complete : Bool
  pub title : TitleState
  pub location : LocationState

pub data Reason : Type 0 where
  employer_unresolved employer_generic_label employer_conflict posting_unattributed : Reason
  destination_aggregate_board destination_blocked_uninspectable destination_gone : Reason
  destination_unresolved destination_grace destination_stale : Reason
  metadata_title_missing metadata_title_truncated metadata_title_malformed : Reason
  metadata_title_approximate_repair metadata_conflict : Reason
  metadata_location_truncated metadata_location_malformed : Reason

pub data EmployerResolution : Type 0 where
  resolved source_reported unresolved conflict : EmployerResolution

-- `attributed` is `postingAttribution`, `trusted_community` whether the evidence codes are those of
-- a trusted community source.
pub record CatalogAdmission : Type 0 where
  pub canonical_employer : Option CanonicalEmployer
  pub employer_resolution : EmployerResolution
  pub attributed : Bool
  pub destination : DestinationEvidence
  pub metadata : MetadataCompleteness
  pub catalog_eligible : Bool
  pub alert_eligible : Bool
  pub reason_codes : List Reason
  pub trusted_community : Bool
  pub evaluated_at : ℕ
  pub evidence_observed_at : Option ℕ
  pub last_verified_at : Option ℕ
  pub grace_deadline : Option ℕ

pub data Provenance : Type 0 where
  official_ats official_structured employer_submitted reviewed_community : Provenance

pub data AlertMode : Type 0 where
  disabled exact_identity_or_two_complete_snapshots : AlertMode

pub data QualificationStatus : Type 0 where
  disabled pending eligible ineligible : QualificationStatus

pub data Basis : Type 0 where
  exact_identity two_complete_snapshots : Basis

pub record AlertQualification : Type 0 where
  pub source_material_hash : Option String
  pub candidate_key : String
  pub validated_destination_key : Option String
  pub consecutive_complete_snapshots : ℕ
  pub last_counted_sequence : Option ℕ
  pub basis : Option Basis
  pub status : QualificationStatus
  pub baseline_suppressed : Bool
  pub catalog_publication_suppressed : Option Bool

-- The time of the first attachment, exact or taken over from before it was recorded.
pub data Precision : Type 0 where
  exact unknown : Precision

pub record Compensation : Type 0 where
  pub raw : String
  -- Is there a maximum per hour?
  pub has_hourly_maximum : Bool

pub record JobRequirements : Type 0 where
  pub requires_us_citizenship : Bool
  pub advanced_degree_required : Bool

-- What a posting says of itself, which the normalisers and the projection of metadata rewrite.
pub record Description : Type 0 where
  pub company : String
  pub title : String
  pub location : String
  pub locations : Option (List String)
  pub compensation : Compensation
  pub requirements : Option JobRequirements

-- The fields of an occurrence without those that are only carried along.
pub record SourceOccurrence : Type 0 where
  pub source_id : String
  pub external_id : Option String
  pub document : String
  pub row : ℕ
  pub provenance : Option Provenance
  pub provider_evidence : Option ProviderPostingEvidence
  pub identity_decision : Option Decision
  pub alert_qualification : Option AlertQualification
  pub technical : Option Bool
  pub description : Description
  pub season : String
  pub apply_url : String
  pub is_open : Bool
  pub admission : Option CatalogAdmission
  pub first_attached_at : Option ℕ
  pub first_attached_precision : Option Precision
