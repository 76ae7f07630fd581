-- ===== src/Session/Api.antt =====
-- src/api.ts: `applySessionEvent`, the handler of a session event. It answers or throws, and comes
-- back with the store in both cases. The last argument, `deletion`, says whether the deletion of the
-- account begins between the write of the session and that of the application; the write of the
-- session compares versions in the store itself, so that what comes before it is in the store given.
pub mod Outcome
pub mod Laws
pub mod Replay
mod Examples
use intern_notifs.Base.{
  ℕ, ◌+◌, ◌-◌, String, Bool, true, false, not, ◌&&◌, ◌||◌, Option, none, some, List, [], ◌∷◌, ◌++◌,
  ltb, leb, ◌==◌, Result, ok, err, units, length, drop, any, is_blank, str_eq, if◌then◌else◌,
}
use intern_notifs.Base.Json.{Props, get, as_str, as_num}
use intern_notifs.Session.Digest.{ApplicationFieldDraft}
use intern_notifs.Session.Machine.{
  Mode, Status, submitted, Lifecycle, Verification, ApplicationSession, SessionEvent,
  TransitionError, transition,
}
use intern_notifs.Session.Request.{
  RequestError, event_id_required, expected_version_invalid, parse_session_event,
}
use intern_notifs.Session.Store.{
  ApplicationStatus, saved, applied, ApplicationRecord, UserStore, row_key, put_application_session,
  put_application,
}

-- `safeSession`: what a client may see, without the user, the handoff and the event ids.
pub record SafeSession : Type 0 where
  pub session_id : String
  pub application_id : String
  pub job_id : String
  pub mode : Mode
  pub status : Status
  pub version : ℕ
  pub fields : List ApplicationFieldDraft
  pub field_plan_digest : List ℕ
  pub approval_digest : Option (List ℕ)
  pub verification : Option Verification
  pub reviewed_at : Option ℕ
  pub submitted_at : Option ℕ
  pub failure_message : Option (List ℕ)
  pub runner_lifecycle : Lifecycle
  pub expires_at : ℕ
  pub metadata_expires_at : ℕ
  pub created_at : ℕ
  pub updated_at : ℕ

pub safe_session : ApplicationSession → SafeSession
safe_session s = record {
  session_id = s.session_id;
  application_id = s.application_id;
  job_id = s.job_id;
  mode = s.mode;
  status = s.status;
  version = s.version;
  fields = s.fields;
  field_plan_digest = s.field_plan_digest;
  approval_digest = s.approval_digest;
  verification = s.verification;
  reviewed_at = s.reviewed_at;
  submitted_at = s.submitted_at;
  failure_message = s.failure_message;
  runner_lifecycle = s.runner_lifecycle;
  expires_at = s.expires_at;
  metadata_expires_at = s.metadata_expires_at;
  created_at = s.created_at;
  updated_at = s.updated_at;
}

pub data ApiError : Type 0 where
  bad_request : RequestError → ApiError
  refused : TransitionError → ApiError
  deletion_in_progress : ApiError

-- The answers: 200 for an event that was taken and for one that was taken before, 409 for a session
-- that has another version (now or at the write), 410 for one that has expired.
pub data Reply : Type 0 where
  taken replayed : SafeSession → Reply
  version_conflict : ℕ → Reply
  write_conflict expired : Reply

abbrev pub status_code : Reply → ℕ
status_code (taken _) = 200
status_code (replayed _) = 200
status_code (version_conflict _) = 409
status_code write_conflict = 409
status_code expired = 410

abbrev pub is_saved : ApplicationStatus → Bool
is_saved saved = true
is_saved _ = false

abbrev pub is_submitted : Status → Bool
is_submitted submitted = true
is_submitted _ = false

-- `array.slice(-100)`
abbrev pub last_100 : List String → List String
last_100 ids = drop (length ids - 100) ids

-- The application of a submitted session goes from saved to applied, and leaves the queue.
pub mark_applied : UserStore → ApplicationSession → ℕ → Option UserStore
mark_applied store session now =
    elim (store.applications (row_key session.user_id session.application_id)) [
      | none ↦ some store
      | some a ↦
          if is_saved a.status
          then put_application store session.user_id
              (record a { queued_at = none; status = applied; updated_at = now })
          else some store
    ]

-- What may come between the write of the session and that of the application, which are two
-- requests to the store: the deletion of the account begins.
pub meanwhile : Bool → UserStore → String → UserStore
meanwhile deletion store user_id = record store {
  deletion_pending = λ id. deletion && str_eq id user_id || store.deletion_pending id;
}

abbrev apply_after :
    UserStore → ApplicationSession → ApplicationSession → ℕ → Result ApiError Reply × UserStore
apply_after store session updated now =
    if is_submitted updated.status
    then elim (mark_applied store session now) [
      | none ↦ (err deletion_in_progress, store)
      | some store' ↦ (ok (taken (safe_session updated)), store')
    ]
    else (ok (taken (safe_session updated)), store)

pub after_put :
    UserStore
    → ApplicationSession
    → ApplicationSession
    → ℕ
    → Bool
    → Result ApiError Reply × UserStore
unfolding meanwhile
after_put store session updated now deletion =
    apply_after (meanwhile deletion store session.user_id) session updated now

-- The session that is written: the next version, with the event among the last hundred.
pub updated_session : ApplicationSession → ApplicationSession → String → ApplicationSession
updated_session session transitioned event_id = record transitioned {
  version = session.version + 1;
  event_ids = last_100 (session.event_ids ++ event_id ∷ []);
}

pub write :
    UserStore
    → ApplicationSession
    → ApplicationSession
    → ℕ
    → Bool
    → Result ApiError Reply × UserStore
write store session updated now deletion =
    let (store', put) =
      put_application_session store session.user_id updated (some session.version) in
    if put then after_put store' session updated now deletion else (ok write_conflict, store')

pub take_event :
    UserStore
    → ApplicationSession
    → Props
    → String
    → ℕ
    → Bool
    → Bool
    → Result ApiError Reply × UserStore
take_event store session body event_id now user_controlled deletion =
    elim (parse_session_event (get "event" body) user_controlled) [
      | err e ↦ (err (bad_request e), store)
      | ok event ↦ elim (transition session event now) [
        | err e ↦ (err (refused e), store)
        | ok transitioned ↦
            write store session (updated_session session transitioned event_id) now deletion
      ]
    ]

pub check_event :
    UserStore
    → ApplicationSession
    → Props
    → String
    → ℕ
    → ℕ
    → Bool
    → Bool
    → Result ApiError Reply × UserStore
check_event store session body event_id expected now user_controlled deletion =
    if any (λ id. str_eq id event_id) session.event_ids
    then (ok (replayed (safe_session session)), store)
    else if not (expected == session.version)
    then (ok (version_conflict session.version), store)
    else if not (ltb now session.expires_at)
    then (ok expired, store)
    else take_event store session body event_id now user_controlled deletion

-- `typeof body.eventId !== 'string' || !body.eventId.trim() || body.eventId.length > 160`
abbrev pub valid_event_id : String → Bool
valid_event_id id = not (is_blank (units id)) && leb (length (units id)) 160

pub apply_session_event :
    UserStore → ApplicationSession → Props → ℕ → Bool → Bool → Result ApiError Reply × UserStore
apply_session_event store session body now user_controlled deletion =
    elim (as_str (get "eventId" body)) [
      | none ↦ (err (bad_request event_id_required), store)
      | some event_id ↦
          if valid_event_id event_id
          then elim (as_num (get "expectedVersion" body)) [
            | none ↦ (err (bad_request expected_version_invalid), store)
            | some expected ↦
                check_event store session body event_id expected now user_controlled deletion
          ]
          else (err (bad_request event_id_required), store)
    ]
