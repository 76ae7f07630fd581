-- ===== src/Session/Traces.antt =====
-- What holds of an application session over every sequence of events. A refused event throws, and
-- leaves the session as it was.
use intern_notifs.Base.{
  ℕ, ◌≡◌, refl, String, Bool, true, false, some, List, [], ◌∷◌, Result, ok, err, arith, any, ◌⊎◌,
  inl, inr,
}
use intern_notifs.Session.Digest.{digest_field_plan}
use intern_notifs.Session.Machine.{
  Mode, Status, submitted, user, ApplicationSession, SessionEvent, review_approved,
  submission_confirmed, TransitionError, create_session, has_unresolved_required_fields,
  is_terminal, transition,
}
use intern_notifs.Session.Invariant.{
  IsValid, is_approved, working, create_session-IsValid, transition-IsValid,
  transition_of_is_terminal,
}

abbrev pub written :
    ApplicationSession → Result TransitionError ApplicationSession → ApplicationSession
written s (ok t) = t
written s (err e) = s

unfoldable pub run : ApplicationSession → List (SessionEvent × ℕ) → ApplicationSession
run s [] = s
run s ((e, now) ∷ es) = run (written s (transition s e now)) es

step-IsValid :
    (s : ApplicationSession) (r : Result TransitionError ApplicationSession) (e : SessionEvent)
    (now : ℕ)
    → transition s e now ≡ r
    → IsValid s
    → IsValid (written s r)
step-IsValid s (ok t) e now p v = transition-IsValid s e now v p
step-IsValid s (err x) e now p v = v

pub run-IsValid :
    (s : ApplicationSession) (es : List (SessionEvent × ℕ)) → IsValid s → IsValid (run s es)
unfolding run
run-IsValid s [] v = v
run-IsValid s ((e, now) ∷ es) v =
    run-IsValid (written s (transition s e now)) es (step-IsValid s _ e now refl v)

-- Whatever events a new session is fed, if it ends as submitted then its approval is the digest of
-- exactly the fields that it holds, and none of its required fields is unresolved.
pub submitted_is_approved :
    (session_id user_id application_id job_id : String) (mode : Mode) (now : ℕ)
    (es : List (SessionEvent × ℕ))
    → (run (create_session session_id user_id application_id job_id mode now) es).status ≡ submitted
    → ((run (create_session session_id user_id application_id job_id mode now) es).approval_digest
        ≡ some (
            digest_field_plan
              (run (create_session session_id user_id application_id job_id mode now) es).fields))
      × (has_unresolved_required_fields
            (run (create_session session_id user_id application_id job_id mode now) es).fields
          ≡ false)
submitted_is_approved session_id user_id application_id job_id mode now es h =
    let v =
      run-IsValid _ es (create_session-IsValid session_id user_id application_id job_id mode now) in
    ground (arith, v.complete, v.approved)

-- `submitted`, `failed` and `cancelled` are absorbing, whatever events follow.
pub run_of_is_terminal :
    (s : ApplicationSession) (es : List (SessionEvent × ℕ))
    → is_terminal s.status ≡ true
    → run s es ≡ s
unfolding run
run_of_is_terminal s [] h = refl
run_of_is_terminal s ((e, now) ∷ es) h =
    rw (transition_of_is_terminal s e now h) (run_of_is_terminal s es h)

abbrev pub is_user_approval : SessionEvent → Bool
is_user_approval (review_approved user) = true
is_user_approval _ = false

abbrev pub is_user_confirmation : SessionEvent → Bool
is_user_confirmation (submission_confirmed user) = true
is_user_confirmation _ = false

abbrev is_submitted : Status → Bool
is_submitted submitted = true
is_submitted _ = false

-- One event brings a session among the approved states only if it is the user's approval.
approval_step :
    (s : ApplicationSession) (r : Result TransitionError ApplicationSession) (e : SessionEvent)
    (now : ℕ)
    → transition s e now ≡ r
    → is_approved (working s) ≡ false
    → (is_user_approval e ≡ true) ⊎ (is_approved (working (written s r)) ≡ false)
unfolding transition
approval_step s r e now p h = ground arith

approval_needed :
    (s : ApplicationSession) (es : List (SessionEvent × ℕ))
    → is_approved (working s) ≡ false
    → is_approved (working (run s es)) ≡ true
    → any (λ x. is_user_approval x.0) es ≡ true
unfolding run
approval_needed s [] h k = cc
approval_needed s ((e, now) ∷ es) h k = elim (approval_step s _ e now refl h) [
  | inl p ↦ ground arith
  | inr q ↦ ground (arith, approval_needed (written s (transition s e now)) es q k)
]

confirmation_step :
    (s : ApplicationSession) (r : Result TransitionError ApplicationSession) (e : SessionEvent)
    (now : ℕ)
    → transition s e now ≡ r
    → is_submitted (working s) ≡ false
    → (is_user_confirmation e ≡ true) ⊎ (is_submitted (working (written s r)) ≡ false)
unfolding transition
confirmation_step s r e now p h = ground arith

confirmation_needed :
    (s : ApplicationSession) (es : List (SessionEvent × ℕ))
    → is_submitted (working s) ≡ false
    → is_submitted (working (run s es)) ≡ true
    → any (λ x. is_user_confirmation x.0) es ≡ true
unfolding run
confirmation_needed s [] h k = cc
confirmation_needed s ((e, now) ∷ es) h k = elim (confirmation_step s _ e now refl h) [
  | inl p ↦ ground arith
  | inr q ↦ ground (arith, confirmation_needed (written s (transition s e now)) es q k)
]

-- A new session is submitted only by events among which are the user's own approval of the review
-- and the user's own confirmation of the submission: no runner submits for the user.
pub submitted_by_user :
    (session_id user_id application_id job_id : String) (mode : Mode) (now : ℕ)
    (es : List (SessionEvent × ℕ))
    → (run (create_session session_id user_id application_id job_id mode now) es).status ≡ submitted
    → (any (λ x. is_user_approval x.0) es ≡ true) × (any (λ x. is_user_confirmation x.0) es ≡ true)
unfolding create_session
submitted_by_user session_id user_id application_id job_id mode now es h =
    let s = create_session session_id user_id application_id job_id mode now in
    let k : working (run s es) ≡ submitted = ground arith in
    (approval_needed s es refl (rw k), confirmation_needed s es refl (rw k))
