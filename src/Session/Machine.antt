-- ===== src/Session/Machine.antt =====
-- src/application-automation.ts: the session record, its creation and its transition function.
-- An instant is a number of milliseconds since the epoch, the reading of the source's ISO texts.
use intern_notifs.Base.{
  ℕ, ◌+◌, ◌*◌, String, Bool, true, false, not, ◌&&◌, Option, none, some, List, [], any, take,
  Result, ok, err, same_units, if◌then◌else◌,
}
use intern_notifs.Session.Digest.{ApplicationFieldDraft, digest_field_plan}

pub data Mode : Type 0 where
  headed headless : Mode

pub data Status : Type 0 where
  created filling needs_input awaiting_user_review awaiting_user_verification : Status
  ready_for_user_submit submitted failed cancelled : Status

pub data Lifecycle : Type 0 where
  not_started active paused stopped : Lifecycle

pub data VerificationReason : Type 0 where
  captcha mfa email identity portal_login other : VerificationReason

-- The source's type admits `user` alone, and `assertUser` guards the values that come from outside.
pub data Actor : Type 0 where
  user not_user : Actor

pub record Verification : Type 0 where
  pub reason : VerificationReason
  pub requested_at : ℕ
  pub completed_at : Option ℕ
  pub resume_status : Status

pub record Handoff : Type 0 where
  pub code_hash : String
  pub code_expires_at : ℕ
  pub consumed_at : Option ℕ
  pub bearer_hash : Option String
  pub bearer_expires_at : Option ℕ

pub record ApplicationSession : Type 0 where
  pub session_id : String
  pub user_id : String
  pub application_id : String
  pub job_id : String
  pub mode : Mode
  pub status : Status
  pub version : ℕ
  pub fields : List ApplicationFieldDraft
  pub field_plan_digest : List ℕ
  pub approval_digest : Option (List ℕ)
  pub verification : Option Verification
  pub reviewed_at : Option ℕ
  pub submitted_at : Option ℕ
  pub failure_message : Option (List ℕ)
  pub runner_lifecycle : Lifecycle
  pub expires_at : ℕ
  pub metadata_expires_at : ℕ
  pub handoff : Option Handoff
  pub event_ids : List String
  pub created_at : ℕ
  pub updated_at : ℕ

pub data SessionEvent : Type 0 where
  start cancel : SessionEvent
  fill_completed answers_updated : List ApplicationFieldDraft → SessionEvent
  review_approved verification_completed submission_confirmed : Actor → SessionEvent
  verification_required : VerificationReason → SessionEvent
  fail : List ℕ → SessionEvent

pub data TransitionError : Type 0 where
  cannot_apply : Status → SessionEvent → TransitionError
  requires_user missing_checkpoint answers_changed : TransitionError

abbrev pub active_session_lifetime : ℕ
active_session_lifetime = 60 * 60 * 1000

abbrev pub metadata_lifetime : ℕ
metadata_lifetime = 30 * 24 * 60 * 60 * 1000

unfoldable pub create_session : String → String → String → String → Mode → ℕ → ApplicationSession
create_session session_id user_id application_id job_id mode now = record {
  session_id = session_id;
  user_id = user_id;
  application_id = application_id;
  job_id = job_id;
  mode = mode;
  status = created;
  version = 0;
  fields = [];
  field_plan_digest = digest_field_plan [];
  approval_digest = none;
  verification = none;
  reviewed_at = none;
  submitted_at = none;
  failure_message = none;
  runner_lifecycle = not_started;
  expires_at = now + active_session_lifetime;
  metadata_expires_at = now + metadata_lifetime;
  handoff = none;
  event_ids = [];
  created_at = now;
  updated_at = now;
}

unfoldable pub has_unresolved_required_fields : List ApplicationFieldDraft → Bool
has_unresolved_required_fields fields = any (λ f. f.required && not f.resolved) fields

abbrev pub is_terminal : Status → Bool
is_terminal submitted = true
is_terminal failed = true
is_terminal cancelled = true
is_terminal _ = false

-- The states in which `verification-required` is refused.
abbrev pub refuses_verification : Status → Bool
refuses_verification created = true
refuses_verification awaiting_user_verification = true
refuses_verification _ = false

-- The update that the source writes out in four cases: new fields void the approval.
pub with_fields : ApplicationSession → List ApplicationFieldDraft → ℕ → ApplicationSession
with_fields s fields now = record s {
  fields = fields;
  field_plan_digest = digest_field_plan fields;
  approval_digest = none;
  status = if has_unresolved_required_fields fields then needs_input else awaiting_user_review;
  updated_at = now;
}

-- `approvalDigest !== fieldPlanDigest`
pub digests_differ : Option (List ℕ) → List ℕ → Bool
digests_differ none plan = true
digests_differ (some approval) plan = not (same_units approval plan)

-- `assertUser`
abbrev pub assert_user :
    Actor → Result TransitionError ApplicationSession → Result TransitionError ApplicationSession
assert_user user next = next
assert_user not_user next = err requires_user

-- The end of the case `awaiting-user-verification`.
pub resume : ApplicationSession → ℕ → Result TransitionError ApplicationSession
resume s now = elim s.verification [
  | none ↦ err missing_checkpoint
  | some v ↦ ok (record s {
    status = v.resume_status;
    runner_lifecycle = active;
    verification = some (record v { completed_at = some now });
    updated_at = now;
  })
]

pub confirm : ApplicationSession → ℕ → Result TransitionError ApplicationSession
unfolding digests_differ
confirm s now =
    if digests_differ s.approval_digest s.field_plan_digest
    then err answers_changed
    else ok (record s {
      status = submitted;
      runner_lifecycle = stopped;
      submitted_at = some now;
      updated_at = now;
    })

-- The `switch` on the status.
pub switch :
    Status → SessionEvent → ApplicationSession → ℕ → Result TransitionError ApplicationSession
unfolding with_fields resume confirm
switch created start s now =
    ok (record s { status = filling; runner_lifecycle = active; updated_at = now })
switch filling (fill_completed fields) s now = ok (with_fields s fields now)
switch needs_input (answers_updated fields) s now = ok (with_fields s fields now)
switch awaiting_user_review (answers_updated fields) s now = ok (with_fields s fields now)
switch awaiting_user_review (review_approved actor) s now = assert_user actor (
    ok (record s {
      status = ready_for_user_submit;
      approval_digest = some s.field_plan_digest;
      reviewed_at = some now;
      updated_at = now;
    }))
switch awaiting_user_verification (verification_completed actor) s now =
    assert_user actor (resume s now)
switch ready_for_user_submit (answers_updated fields) s now = ok (with_fields s fields now)
switch ready_for_user_submit (submission_confirmed actor) s now = assert_user actor (confirm s now)
switch status event s now = err (cannot_apply status event)

-- The events that are taken in every state that is not terminal, and then the `switch`.
pub handle : SessionEvent → ApplicationSession → ℕ → Result TransitionError ApplicationSession
unfolding switch
handle (fail message) s now = ok (record s {
  status = failed;
  runner_lifecycle = stopped;
  failure_message = some (take 1000 message);
  updated_at = now;
})
handle cancel s now =
    ok (record s { status = cancelled; runner_lifecycle = stopped; updated_at = now })
handle (verification_required reason) s now =
    if refuses_verification s.status
    then err (cannot_apply s.status (verification_required reason))
    else ok (record s {
      status = awaiting_user_verification;
      runner_lifecycle = paused;
      verification = some (record {
        reason = reason;
        requested_at = now;
        completed_at = none;
        resume_status = s.status;
      });
      updated_at = now;
    })
handle event s now = switch s.status event s now

unfoldable pub transition :
    ApplicationSession → SessionEvent → ℕ → Result TransitionError ApplicationSession
unfolding handle
transition s event now =
    if is_terminal s.status then err (cannot_apply s.status event) else handle event s now
