-- ===== src/Session/Examples.antt =====
-- The theorems about application sessions at concrete inputs, and runs of the code.
use intern_notifs.Base.{
  ℕ, ◌≡◌, ◌≢◌, refl, Bool, true, false, none, some, List, [], ◌∷◌, ok, err, any, units, same_units,
}
use intern_notifs.Session.Digest.{ApplicationFieldDraft, standard, exact, digest_field_plan}
use intern_notifs.Session.Machine.{
  headed, awaiting_user_verification, submitted, captcha, user, not_user, ApplicationSession,
  SessionEvent, start, cancel, fill_completed, answers_updated, review_approved,
  verification_completed, verification_required, submission_confirmed, create_session,
  has_unresolved_required_fields, transition, missing_checkpoint, answers_changed, requires_user,
}
use intern_notifs.Session.Invariant.{
  IsValid, create_session-IsValid, transition-IsValid, transition_no_internal_error,
  verification_detour, working,
}
use intern_notifs.Session.Traces.{
  run, submitted_is_approved, submitted_by_user, run_of_is_terminal, is_user_approval,
  is_user_confirmation,
}
use intern_notifs.Session.Progress.{Submits, way_out, way_out-submitted}

abbrev fresh : ApplicationSession
fresh = create_session "s1" "u1" "a1" "j1" headed 1000

abbrev email_field : Bool → ApplicationFieldDraft
email_field resolved = record {
  key = "email";
  label = "Email";
  required = true;
  resolved = resolved;
  classification = standard;
  confidence = exact;
  value_ref = none;
  masked_preview = some "a***@x.org";
}

-- The answers are completed in two rounds, with a captcha in between.
abbrev script : List (SessionEvent × ℕ)
script =
    (start, 1001)
    ∷ (fill_completed (email_field false ∷ []), 1002)
    ∷ (verification_required captcha, 1003)
    ∷ (verification_completed user, 1004)
    ∷ (answers_updated (email_field true ∷ []), 1005)
    ∷ (review_approved not_user, 1006)
    ∷ (review_approved user, 1007)
    ∷ (submission_confirmed user, 1008)
    ∷ []

opened : Unit {0}
unfolding run transition create_session has_unresolved_required_fields digest_field_plan same_units
opened = tt

script_submits : (run fresh script).status ≡ submitted
unfolding opened
script_submits = refl

digest_of_no_fields : digest_field_plan [] ≡ units "fp-811c9dc5"
unfolding digest_field_plan units
digest_of_no_fields = refl

stranger_refused :
    transition (run fresh ((start, 1) ∷ (fill_completed [], 2) ∷ [])) (review_approved not_user) 3
    ≡ err requires_user
unfolding opened
stranger_refused = refl

submitted_is_approved_example :
    ((run fresh script).approval_digest ≡ some (digest_field_plan (run fresh script).fields))
    × (has_unresolved_required_fields (run fresh script).fields ≡ false)
submitted_is_approved_example =
    submitted_is_approved "s1" "u1" "a1" "j1" headed 1000 script script_submits

submitted_by_user_example :
    (any (λ x. is_user_approval x.0) script ≡ true)
    × (any (λ x. is_user_confirmation x.0) script ≡ true)
submitted_by_user_example = submitted_by_user "s1" "u1" "a1" "j1" headed 1000 script script_submits

abbrev started : ApplicationSession
started = run fresh ((start, 1001) ∷ [])

started_lem : transition fresh start 1001 ≡ ok started
unfolding opened
started_lem = refl

fresh-IsValid : IsValid fresh
fresh-IsValid = create_session-IsValid "s1" "u1" "a1" "j1" headed 1000

transition-IsValid_example : IsValid started
transition-IsValid_example = transition-IsValid fresh start 1001 fresh-IsValid started_lem

transition_no_internal_error_example :
    (transition fresh cancel 5 ≢ err missing_checkpoint)
    × (transition fresh cancel 5 ≢ err answers_changed)
transition_no_internal_error_example = transition_no_internal_error fresh cancel 5 fresh-IsValid

run_of_is_terminal_example :
    run (run fresh script) ((cancel, 2000) ∷ (start, 2001) ∷ []) ≡ run fresh script
unfolding opened
run_of_is_terminal_example =
    run_of_is_terminal (run fresh script) ((cancel, 2000) ∷ (start, 2001) ∷ []) refl

way_out-submitted_example :
    Submits
      (email_field true ∷ [])
      (run started (way_out (email_field true ∷ []) 9 started.status (working started)))
unfolding opened
way_out-submitted_example =
    way_out-submitted (email_field true ∷ []) 9 started refl
      (transition-IsValid fresh start 1001 fresh-IsValid started_lem) refl

verification_detour_example :
    (t u : ApplicationSession) × (transition started (verification_required captcha) 3 ≡ ok t)
    × (transition t (verification_completed user) 4 ≡ ok u)
    × (t.status ≡ awaiting_user_verification)
    × (u.status ≡ started.status)
    × (u.fields ≡ started.fields)
    × (u.field_plan_digest ≡ started.field_plan_digest)
    × (u.approval_digest ≡ started.approval_digest)
unfolding opened
verification_detour_example = verification_detour started captcha 3 4 refl refl

abbrev two_fields : List ApplicationFieldDraft
two_fields = email_field true ∷ record (email_field false) { key = "phone" } ∷ []

abbrev swapped_fields : List ApplicationFieldDraft
swapped_fields = record (email_field false) { key = "phone" } ∷ email_field true ∷ []
