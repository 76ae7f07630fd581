-- ===== src/Session/Progress.antt =====
-- From every state of an application session that is not terminal there is a way to submit it.
use intern_notifs.Base.{ℕ, ◌≡◌, refl, Bool, true, false, List, [], ◌∷◌, arith, same_units_iff, ◌∙◌}
use intern_notifs.Session.Digest.{ApplicationFieldDraft, digest_field_plan}
use intern_notifs.Session.Machine.{
  Status, created, filling, needs_input, awaiting_user_review, awaiting_user_verification,
  ready_for_user_submit, submitted, user, ApplicationSession, SessionEvent, start, fill_completed,
  answers_updated, review_approved, verification_completed, submission_confirmed,
  has_unresolved_required_fields, is_terminal, transition,
}
use intern_notifs.Session.Invariant.{IsValid, working}
use intern_notifs.Session.Traces.{written, run}

module _ (fields : List ApplicationFieldDraft) (now : ℕ) where
  -- Where answers can be edited: put in the answers, approve the review, confirm the submission.
  pub finish : List (SessionEvent × ℕ)
  finish =
      (answers_updated fields, now)
      ∷ (review_approved user, now)
      ∷ (submission_confirmed user, now)
      ∷ []

  -- A way to `submitted` from each state that is not terminal; the second argument is the state
  -- that an open verification resumes.
  pub way_out : Status → Status → List (SessionEvent × ℕ)
  unfolding finish
  way_out created _ = (start, now) ∷ (fill_completed fields, now) ∷ finish
  way_out filling _ = (fill_completed fields, now) ∷ finish
  way_out awaiting_user_verification filling =
      (verification_completed user, now) ∷ (fill_completed fields, now) ∷ finish
  way_out awaiting_user_verification _ = (verification_completed user, now) ∷ finish
  way_out _ _ = finish

abbrev is_editable : Status → Bool
is_editable needs_input = true
is_editable awaiting_user_review = true
is_editable ready_for_user_submit = true
is_editable _ = false

abbrev pub Submits : List ApplicationFieldDraft → ApplicationSession → Type 0
Submits fields t = (t.status ≡ submitted) × (t.fields ≡ fields)

module _ (fields : List ApplicationFieldDraft) (now : ℕ)
    (resolved : has_unresolved_required_fields fields ≡ false) where
  finish_lem :
      (s : ApplicationSession)
      → is_editable s.status ≡ true
      → Submits fields (run s (finish fields now))
  unfolding run transition finish
  finish_lem s h =
      ground (arith, same_units_iff (digest_field_plan fields) (digest_field_plan fields))

  fill_step :
      (s : ApplicationSession)
      → s.status ≡ filling
      → is_editable (written s (transition s (fill_completed fields) now)).status ≡ true
  unfolding transition
  fill_step s h = ground arith

  filled :
      (s : ApplicationSession)
      → s.status ≡ filling
      → Submits fields (run s ((fill_completed fields, now) ∷ finish fields now))
  unfolding run
  filled s h = finish_lem _ (fill_step s h)

  start_step :
      (s : ApplicationSession)
      → s.status ≡ created
      → (written s (transition s start now)).status ≡ filling
  unfolding transition
  start_step s h = ground arith

  resume_step :
      (s : ApplicationSession)
      → IsValid s
      → s.status ≡ awaiting_user_verification
      → (written s (transition s (verification_completed user) now)).status ≡ working s
  unfolding transition
  resume_step s v h = ground arith

  resumed :
      (s : ApplicationSession) (w : Status)
      → IsValid s
      → s.status ≡ awaiting_user_verification
      → working s ≡ w
      → Submits fields (run s (way_out fields now awaiting_user_verification w))
  unfolding run way_out
  resumed s filling v h k = filled _ (resume_step s v h ∙ k)
  resumed s needs_input v h k = finish_lem _ (rw (resume_step s v h, k) refl)
  resumed s awaiting_user_review v h k = finish_lem _ (rw (resume_step s v h, k) refl)
  resumed s ready_for_user_submit v h k = finish_lem _ (rw (resume_step s v h, k) refl)
  resumed s w v h k = ground (arith, v.checkpoint h, v.resumable h)

  way_out_from :
      (s : ApplicationSession) (status : Status)
      → s.status ≡ status
      → IsValid s
      → is_terminal status ≡ false
      → Submits fields (run s (way_out fields now status (working s)))
  unfolding run way_out
  way_out_from s created e v h = filled _ (start_step s e)
  way_out_from s filling e v h = filled s e
  way_out_from s awaiting_user_verification e v h = resumed s (working s) v e refl
  way_out_from s needs_input e v h = finish_lem s (rw e)
  way_out_from s awaiting_user_review e v h = finish_lem s (rw e)
  way_out_from s ready_for_user_submit e v h = finish_lem s (rw e)
  way_out_from s _ e v h = cc

-- No state that is not terminal is a dead end: from every well-formed session in such a state, and
-- for every field plan with no unresolved required field, `way_out` is a sequence of events that
-- leads to `submitted` with that plan.
pub way_out-submitted :
    (fields : List ApplicationFieldDraft) (now : ℕ) (s : ApplicationSession)
    → has_unresolved_required_fields fields ≡ false
    → IsValid s
    → is_terminal s.status ≡ false
    → Submits fields (run s (way_out fields now s.status (working s)))
way_out-submitted fields now s resolved v h = way_out_from fields now resolved s s.status refl v h
