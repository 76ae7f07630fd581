-- ===== src/Catalog/Plan.antt =====
-- src/ingestion/catalog-reconciler.ts: what a reconciliation is given and what it plans.
use intern_notifs.Base.{
  ℕ, String, Bool, true, false, ◌&&◌, not, Option, none, some, List, [], ◌∷◌, any, is_some, get_or,
  or_else, str_eq, if◌then◌else◌,
}
use intern_notifs.Admission.Evidence.{
  CatalogAdmission, AlertQualification, QualificationStatus, Precision,
}
use intern_notifs.Catalog.Types.{
  ProcessedListing, NotificationState, IdentityStatus, Internship, SourceOccurrenceState,
  NotificationEvent,
}

-- `validated_at`, `metadata_validated` and `resolved_jobs` are the entries of maps.
pub record ReconciliationInput : Type 0 where
  pub source_id : String
  pub snapshot_hash : String
  pub active_external_ids : List String
  pub listings : List ProcessedListing
  pub prior_occurrences : List SourceOccurrenceState
  pub resolved_jobs : List (String × Internship)
  pub now : ℕ
  pub baseline : Bool
  pub validated_at : List (String × ℕ)
  pub metadata_validated : List (String × ℕ)
  pub alert_eligible : Option (List String)
  pub publish_unconfirmed : Option Bool
  pub trusted_alerts : Bool

-- The variables of the method, and its result.
pub record Plan : Type 0 where
  pub jobs : List (String × Internship)
  pub occurrences : List SourceOccurrenceState
  pub notifications : List NotificationEvent
  pub new_jobs : List Internship
  pub filtered_jobs : List Internship
  pub included : List String
  pub legacy_by_url : List (String × Internship)
  pub by_posting_identity : List (String × Internship)

abbrev pub empty_plan : Plan
empty_plan = record {
  jobs = [];
  occurrences = [];
  notifications = [];
  new_jobs = [];
  filtered_jobs = [];
  included = [];
  legacy_by_url = [];
  by_posting_identity = [];
}

-- `a === b` on Booleans
abbrev pub bool_eq : Bool → Bool → Bool
bool_eq true b = b
bool_eq false b = not b

abbrev pub is_among : String → List String → Bool
is_among id ids = any (str_eq id) ids

-- `admission?.alertEligible`
abbrev pub alerts : Option CatalogAdmission → Option Bool
alerts none = none
alerts (some a) = some a.alert_eligible

unfoldable pub should_promote_delayed_notification :
    Option Bool → Option Bool → Option Bool → Option Bool → Bool
should_promote_delayed_notification previous own canonical suppressed =
    not (get_or previous false)
    && get_or own false
    && get_or canonical false
    && not (get_or suppressed false)

-- What becomes of a job that was just listed.
pub data Announcement : Type 0 where
  silent filtered announced promoted : Announcement

abbrev pub nothing_pending : NotificationState
nothing_pending = record { sms_pending = false; digest_pending = false }

abbrev pub all_pending : NotificationState
all_pending = record { sms_pending = true; digest_pending = true }

unfoldable pub marked : Announcement → Internship → Internship
marked silent job = job
marked Announcement.filtered job = record job { notification = nothing_pending }
marked announced job = job
marked promoted job = record job { notification = all_pending }

abbrev pub when_new : {A : Type 0} → Announcement → A → List A
when_new announced a = a ∷ []
when_new promoted a = a ∷ []
when_new _ a = []

abbrev pub when_filtered : {A : Type 0} → Announcement → A → List A
when_filtered Announcement.filtered a = a ∷ []
when_filtered _ a = []

abbrev pub is_unpublished : Internship → Bool
is_unpublished job = elim job.posting_identity_status [
  | some IdentityStatus.unconfirmed ↦ true
  | _ ↦ false
]

abbrev pub is_eligible_by_trust : Option AlertQualification → Bool
is_eligible_by_trust none = false
is_eligible_by_trust (some q) = elim q.status [ QualificationStatus.eligible ↦ true | _ ↦ false ]

abbrev pub suppression : Option AlertQualification → Option Bool
suppression none = none
suppression (some q) = some q.baseline_suppressed

abbrev pub attached_since : Option SourceOccurrenceState → ℕ → ℕ
attached_since none now = now
attached_since (some p) now =
    get_or p.occurrence.first_attached_at (get_or p.first_observed_at p.changed_at)

abbrev pub attachment_precision : Option SourceOccurrenceState → Precision
attachment_precision none = Precision.exact
attachment_precision (some p) = get_or p.occurrence.first_attached_precision (
    if is_some p.first_observed_at
    then get_or p.first_observed_precision Precision.exact
    else Precision.unknown)

abbrev pub observation_precision : Option SourceOccurrenceState → Option Precision
observation_precision none = some Precision.exact
observation_precision (some p) =
    or_else p.first_observed_precision
      (if is_some p.first_observed_at then none else some Precision.unknown)

abbrev pub observed_since : Option SourceOccurrenceState → ℕ → Option ℕ
observed_since none now = some now
observed_since (some p) now = p.first_observed_at
