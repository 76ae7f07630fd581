-- ===== src/Catalog/Types.antt =====
-- src/types.ts: listings, occurrences and jobs of the catalog. What `catalog-quality.ts`,
-- `role-metadata.ts` and `core` make of texts, URLs and dates is given by `Tools`. The normalisers and
-- the projection of metadata rewrite the description of a posting and nothing else that is modelled.
use intern_notifs.Base.{ℕ, String, Bool, Option, List}
use intern_notifs.Identity.Posting.{PostingIdentity}
use intern_notifs.Admission.Evidence.{CatalogAdmission, Description, SourceOccurrence, Precision}

-- Of the descriptive identity only whether the season is explicit is read.
pub record InternshipIdentity : Type 0 where
  pub season_is_explicit : Bool

pub record ProcessedListing : Type 0 where
  pub reference : SourceOccurrence
  pub listed_identity : Option PostingIdentity
  pub listed_internship : Option InternshipIdentity

pub record NotificationState : Type 0 where
  pub sms_pending : Bool
  pub digest_pending : Bool

pub data IdentityStatus : Type 0 where
  confirmed unconfirmed : IdentityStatus

pub data Recency : Type 0 where
  normal baseline : Recency

pub record Internship : Type 0 where
  pub job_id : String
  pub description : Description
  pub season : String
  pub apply_url : String
  pub normalized_url : String
  pub posting_identity : Option PostingIdentity
  pub posting_identity_status : Option IdentityStatus
  pub internship_identity : Option InternshipIdentity
  pub application_url_validated_at : Option ℕ
  pub page_metadata_version : Option ℕ
  pub invalid_application_url : Option String
  pub fingerprint : String
  pub source_references : List SourceOccurrence
  pub technical : Option Bool
  pub is_open : Bool
  pub admission : Option CatalogAdmission
  pub first_seen_at : ℕ
  pub catalog_visible_at : Option ℕ
  pub catalog_recency : Option Recency
  pub last_seen_at : ℕ
  pub notification : NotificationState

pub record SourceOccurrenceState : Type 0 where
  pub source_id : String
  pub external_id : String
  pub job_id : String
  pub occurrence : SourceOccurrence
  pub present : Bool
  pub consecutive_omissions : ℕ
  pub changed_snapshot_hash : String
  pub changed_at : ℕ
  pub first_observed_at : Option ℕ
  pub first_observed_precision : Option Precision

pub record NotificationEvent : Type 0 where
  pub event_id : String
  pub source_id : String
  pub external_id : String
  pub job_id : String
  pub created_at : ℕ

pub record Tools : Type 0 where
  pub tidy : Description → Description
  pub project : Internship → Description
  -- `none` where `normalizeUrl` throws.
  pub normalize_url : String → Option String
  pub make_fingerprint : Description → String → String
  pub url_job_id : String → String → String
  pub occurrence_job_id : String → String → String
  pub is_technical : ProcessedListing → Bool
  pub matches_filter : Description → String → Bool
  pub is_past_season : String → ℕ → Bool
  pub is_generic_location : String → Bool
  pub is_registered_official : String → Bool
  pub disagree : SourceOccurrence → SourceOccurrence → Bool
  pub event_hash : String → String
  -- Are the `stableJson` texts of two occurrences the same?
  pub same_json : SourceOccurrence → SourceOccurrence → Bool
