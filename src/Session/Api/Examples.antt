-- ===== src/Session/Api/Examples.antt =====
-- The handler of a session event at concrete inputs.
use intern_notifs.Base.{
  ◌≡◌, refl, List, [], ◌∷◌, true, false, none, some, ok, arith, units, is_blank, str_eq,
  if◌then◌else◌, Bool-cases, inl, inr,
}
use intern_notifs.Base.Json.{num, str, Props, end, prop, get}
use intern_notifs.Session.Digest.{digest_field_plan}
use intern_notifs.Session.Machine.{headed, ApplicationSession, create_session, transition}
use intern_notifs.Session.Invariant.{is_approved, create_session-IsValid}
use intern_notifs.Session.Request.Examples.{typed, request_opened}
use intern_notifs.Session.Store.{UserStore, update, put_application_session}
use intern_notifs.Session.Api.{
  apply_session_event, check_event, take_event, write, after_put, meanwhile, mark_applied,
  updated_session, replayed, safe_session, expired,
}
use intern_notifs.Session.Api.Outcome.{is_written}
use intern_notifs.Session.Api.Laws.{key_of, AllValid, no_lost_update}
use intern_notifs.Session.Api.Replay.{
  Request, after_requests, taken_then_replayed, runner_never_approves,
}

abbrev session : ApplicationSession
session = create_session "s1" "u1" "a1" "j1" headed 1000

abbrev store : UserStore
store = record {
  sessions = λ k. if str_eq "u1#s1" k then some session else none;
  applications = λ k. none;
  deletion_pending = λ k. false;
}

-- The runner cancels the session.
abbrev body : Props
body =
    prop "eventId" (str "e1") (prop "expectedVersion" (num 0) (prop "event" (typed "cancel") end))

opened : Unit {0}
unfolding meanwhile request_opened apply_session_event check_event take_event write after_put
    mark_applied updated_session put_application_session update create_session transition get units
    is_blank digest_field_plan
opened = tt

cancel_taken : is_written (apply_session_event store session body 1001 false false).0 ≡ true
unfolding opened
cancel_taken = refl

cancel_refused_late : (apply_session_event store session body 4000000 false false).0 ≡ ok expired
unfolding opened
cancel_refused_late = refl

store-AllValid : AllValid store
store-AllValid k s h = elim (Bool-cases (str_eq "u1#s1" k)) [
  | inl p ↦
      let e : session ≡ s = ground arith in
      rw (← e) (create_session-IsValid "s1" "u1" "a1" "j1" headed 1000)
  | inr p ↦ ground arith
]

abbrev after : UserStore
after = (apply_session_event store session body 1001 false false).1

no_lost_update_example :
    (is_written (apply_session_event after session body 1002 true false).0 ≡ false)
    × ((apply_session_event after session body 1002 true false).1 ≡ after)
no_lost_update_example =
    no_lost_update store session body body 1001 1002 false true false false cancel_taken

-- A second request, of another event, comes before the first is repeated.
abbrev others : List Request
others =
    record {
      body =
          prop "eventId" (str "e2")
            (prop "expectedVersion" (num 1) (prop "event" (typed "cancel") end));
      at = 1002;
      by_user = true;
      deletion = false;
    }
    ∷ []

taken_then_replayed_example :
    (t : ApplicationSession) × ((after_requests after (key_of session) others).sessions
        (key_of session)
      ≡ some t)
    × (apply_session_event (after_requests after (key_of session) others) t body 9000000 true false
        ≡ (ok (replayed (safe_session t)), after_requests after (key_of session) others))
taken_then_replayed_example =
    taken_then_replayed store session body 1001 9000000 false true false false others cancel_taken
      (omega arith)

runner_never_approves_example :
    (t : ApplicationSession) × ((apply_session_event store session body 1001 false false).1.sessions
        (key_of session)
      ≡ some t)
    × (is_approved t.status ≡ false)
runner_never_approves_example = runner_never_approves store session body 1001 false cancel_taken
