-- ===== src/Session/Invariant.antt =====
-- What holds of an application session between two events.
use intern_notifs.Base.{
  ℕ, ◌≡◌, ◌≢◌, String, Bool, true, false, Option, none, some, ok, err, arith, same_units_iff,
}
use intern_notifs.Session.Digest.{digest_field_plan}
use intern_notifs.Session.Machine.{
  Mode, Status, created, awaiting_user_review, awaiting_user_verification, ready_for_user_submit,
  submitted, failed, cancelled, Lifecycle, not_started, active, paused, stopped, Verification,
  VerificationReason, user, ApplicationSession, SessionEvent, verification_required,
  verification_completed, cannot_apply, missing_checkpoint, answers_changed, create_session,
  has_unresolved_required_fields, is_terminal, refuses_verification, transition,
}

-- The states whose field plan has been found complete.
abbrev pub is_complete : Status → Bool
is_complete awaiting_user_review = true
is_complete ready_for_user_submit = true
is_complete submitted = true
is_complete _ = false

-- The states in which the approval covers the current field plan.
abbrev pub is_approved : Status → Bool
is_approved ready_for_user_submit = true
is_approved submitted = true
is_approved _ = false

-- The runner's lifecycle, as a function of the state.
abbrev pub lifecycle_of : Status → Lifecycle
lifecycle_of created = not_started
lifecycle_of awaiting_user_verification = paused
lifecycle_of submitted = stopped
lifecycle_of failed = stopped
lifecycle_of cancelled = stopped
lifecycle_of _ = active

-- The state in which the work stands: behind a verification, the one that it resumes.
abbrev pub work_status : Status → Option Verification → Status
work_status awaiting_user_verification (some v) = v.resume_status
work_status status _ = status

abbrev pub working : ApplicationSession → Status
working s = work_status s.status s.verification

pub record IsValid (s : ApplicationSession) : Type 0 where
  pub digest_current : s.field_plan_digest ≡ digest_field_plan s.fields
  pub complete : is_complete (working s) ≡ true → has_unresolved_required_fields s.fields ≡ false
  pub approved :
      is_approved (working s) ≡ true → s.approval_digest ≡ some (digest_field_plan s.fields)
  pub lifecycle : s.runner_lifecycle ≡ lifecycle_of s.status
  pub checkpoint : s.status ≡ awaiting_user_verification → refuses_verification (working s) ≡ false
  pub resumable : s.status ≡ awaiting_user_verification → is_terminal (working s) ≡ false

-- A session that has just been created is well formed.
pub create_session-IsValid :
    (session_id user_id application_id job_id : String) (mode : Mode) (now : ℕ)
    → IsValid (create_session session_id user_id application_id job_id mode now)
unfolding create_session
create_session-IsValid session_id user_id application_id job_id mode now = ground arith

-- Every event that a well-formed session accepts leaves it well formed: the digest is that of the
-- current fields, no required field is open behind a completed plan, the approval in the states
-- behind it is that of the current plan, the runner's lifecycle is the one of the status, and a
-- verification resumes a state that is neither fresh nor terminal nor itself a verification.
pub transition-IsValid :
    (s : ApplicationSession) (e : SessionEvent) (now : ℕ) {t : ApplicationSession}
    → IsValid s
    → transition s e now ≡ ok t
    → IsValid t
unfolding transition
transition-IsValid s e now v h = ground arith

-- A terminal session refuses every event.
pub transition_of_is_terminal :
    (s : ApplicationSession) (e : SessionEvent) (now : ℕ)
    → is_terminal s.status ≡ true
    → transition s e now ≡ err (cannot_apply s.status e)
unfolding transition
transition_of_is_terminal s e now h = rw h

-- A well-formed session never meets the two internal errors: the checkpoint of a verification is
-- there when it is needed, and an approval that has been given covers the plan that is submitted.
pub transition_no_internal_error :
    (s : ApplicationSession) (e : SessionEvent) (now : ℕ)
    → IsValid s
    → (transition s e now ≢ err missing_checkpoint) × (transition s e now ≢ err answers_changed)
unfolding transition
transition_no_internal_error s e now v =
    ground (arith, same_units_iff (digest_field_plan s.fields) (digest_field_plan s.fields))

-- A verification may interrupt a session in any state but a fresh or terminal one, and when the
-- user completes it the session is back in that state with the same fields, digest and approval.
pub verification_detour :
    (s : ApplicationSession) (reason : VerificationReason) (asked done : ℕ)
    → is_terminal s.status ≡ false
    → refuses_verification s.status ≡ false
    → (t u : ApplicationSession) × (transition s (verification_required reason) asked ≡ ok t)
      × (transition t (verification_completed user) done ≡ ok u)
      × (t.status ≡ awaiting_user_verification)
      × (u.status ≡ s.status)
      × (u.fields ≡ s.fields)
      × (u.field_plan_digest ≡ s.field_plan_digest)
      × (u.approval_digest ≡ s.approval_digest)
unfolding transition
verification_detour s reason asked done h k =
    let paused_session : ApplicationSession = record s {
      status = awaiting_user_verification;
      runner_lifecycle = paused;
      verification = some (record {
        reason = reason;
        requested_at = asked;
        completed_at = none;
        resume_status = s.status;
      });
      updated_at = asked;
    } in
    (
      paused_session,
      record paused_session {
        status = s.status;
        runner_lifecycle = active;
        verification = some (record {
          reason = reason;
          requested_at = asked;
          completed_at = some done;
          resume_status = s.status;
        });
        updated_at = done;
      },
      ground arith,
      ground arith,
      ground arith,
      ground arith,
      ground arith,
      ground arith,
      ground arith,
    )
