-- ===== src/Session/Api/Laws.antt =====
-- What the handler of a session event guarantees.
use intern_notifs.Base.{
  ◌≢◌, ap, Bool-cases, ==_iff, ℕ, ◌+◌, ◌≡◌, refl, String, Bool, true, false, Option, none, some, ok,
  arith, str_eq, eq_iff, inl, inr, ◌==◌,
}
use intern_notifs.Base.Json.{Props, get, as_str, as_num}
use intern_notifs.Session.Machine.{ApplicationSession, SessionEvent, transition}
use intern_notifs.Session.Request.{parse_session_event}
use intern_notifs.Session.Invariant.{IsValid, transition-IsValid}
use intern_notifs.Session.Store.{UserStore, row_key, update}
use intern_notifs.Session.Api.{apply_session_event, updated_session, valid_event_id}
use intern_notifs.Session.Api.Outcome.{is_written, Written, Taken, apply_session_event-Handled}

apply_session_event-Taken :
    (store : UserStore) (session : ApplicationSession) (body : Props) (now : ℕ) (u d : Bool)
    → is_written (apply_session_event store session body now u d).0 ≡ true
    → (id : String) × (as_str (get "eventId" body) ≡ some id)
      × (valid_event_id id ≡ true)
      × (as_num (get "expectedVersion" body) ≢ none)
      × Taken store session body id now u (apply_session_event store session body now u d).1
apply_session_event-Taken store session body now u d h =
    elim (apply_session_event-Handled store session body now u d) [
      | inl (k, w) ↦ w
      | inr (k, e) ↦ cc
    ]

-- An event changes neither the session's id nor its user.
pub transition-ids :
    (s : ApplicationSession) (e : SessionEvent) (now : ℕ) (t : ApplicationSession)
    → transition s e now ≡ ok t
    → (t.session_id ≡ s.session_id) × (t.user_id ≡ s.user_id)
unfolding transition
transition-ids s e now t h = ground arith

-- The row of a session.
abbrev pub key_of : ApplicationSession → String
key_of s = row_key s.user_id s.session_id

abbrev pub version_is : Option ApplicationSession → ℕ → Bool
version_is none v = false
version_is (some s) v = s.version == v

update_at :
    {A : Type 0} (m : String → Option A) (k j : String) (a : A) → k ≡ j → update m k a j ≡ some a
unfolding update
update_at m k j a e = rw ((eq_iff k j).1 e)

Written-at :
    (store after : UserStore) (session updated : ApplicationSession)
    → updated.session_id ≡ session.session_id
    → Written store session updated after
    → (version_is (store.sessions (key_of session)) session.version ≡ true)
      × (after.sessions (key_of session) ≡ some updated)
Written-at store after session updated e w = (
  rw e at w.version_matched,
  rw w.sessions_updated (update_at store.sessions _ _ updated (ap (row_key session.user_id) e)),
)

-- What a taken event has stored in the row of its session.
pub stored_of :
    (store : UserStore) (session : ApplicationSession) (body : Props) (now : ℕ) (u d : Bool)
    → is_written (apply_session_event store session body now u d).0 ≡ true
    → (id : String) × (e : SessionEvent) × (t : ApplicationSession) × (as_str (get "eventId" body)
        ≡ some id)
      × (valid_event_id id ≡ true)
      × (as_num (get "expectedVersion" body) ≢ none)
      × (parse_session_event (get "event" body) u ≡ ok e)
      × (transition session e now ≡ ok t)
      × (version_is (store.sessions (key_of session)) session.version ≡ true)
      × ((apply_session_event store session body now u d).1.sessions (key_of session)
          ≡ some (updated_session session t id))
stored_of store session body now u d h =
    let (id, p, a, n, (e, t, q, r, w)) = apply_session_event-Taken store session body now u d h in
    let (v, k) =
      Written-at store _ session (updated_session session t id)
        (unfold updated_session in (transition-ids session e now t r).0) w in
    (id, e, t, p, a, n, q, r, v, k)

version_ne :
    (o : Option ApplicationSession) (n : ℕ)
    → version_is o (n + 1) ≡ true
    → version_is o n ≡ true
    → ⊥
version_ne o n h k = ground arith

update-IsValid :
    (m : String → Option ApplicationSession) (j : String) (a : ApplicationSession)
    → IsValid a
    → ((k : String) (s : ApplicationSession) → m k ≡ some s → IsValid s)
    → (k : String) (s : ApplicationSession) → update m j a k ≡ some s
    → IsValid s
unfolding update
update-IsValid m j a v all k s h = elim (Bool-cases (str_eq j k)) [
  | inl p ↦ let e : a ≡ s = ground arith in rw (← e) v
  | inr p ↦ all k s (rw p at h)
]

-- A session is written only while the stored session has the version of the session that the request
-- was decided on, and the session stored then has the next version.
pub taken_advances :
    (store : UserStore) (session : ApplicationSession) (body : Props) (now : ℕ) (u d : Bool)
    → is_written (apply_session_event store session body now u d).0 ≡ true
    → (version_is (store.sessions (key_of session)) session.version ≡ true)
      × (version_is
            ((apply_session_event store session body now u d).1.sessions (key_of session))
            (session.version + 1)
          ≡ true)
taken_advances store session body now u d h =
    let (id, e, t, p, a, n, q, r, v, k) = stored_of store session body now u d h in
    (v, rw k (unfold updated_session in (==_iff _ _).1 refl))

pub unwritten-eq_store :
    (store : UserStore) (session : ApplicationSession) (body : Props) (now : ℕ) (u d : Bool)
    → is_written (apply_session_event store session body now u d).0 ≡ false
    → (apply_session_event store session body now u d).1 ≡ store
unwritten-eq_store store session body now u d h =
    elim (apply_session_event-Handled store session body now u d) [
      | inl (k, w) ↦ cc
      | inr (k, e) ↦ e
    ]

-- Two requests that were decided on the same reading of a session are never both taken: after the
-- first has written, the second writes nothing, whatever either asks for.
pub no_lost_update :
    (store : UserStore) (session : ApplicationSession) (first second : Props) (now later : ℕ)
    (u v d e : Bool)
    → is_written (apply_session_event store session first now u d).0 ≡ true
    → let after = (apply_session_event store session first now u d).1 in
      (is_written (apply_session_event after session second later v e).0 ≡ false)
      × ((apply_session_event after session second later v e).1 ≡ after)
no_lost_update store session first second now later u v d e h =
    let after = (apply_session_event store session first now u d).1 in
    let a = taken_advances store session first now u d h in
    let refused : is_written (apply_session_event after session second later v e).0 ≡ false =
      elim (Bool-cases (is_written (apply_session_event after session second later v e).0)) [
        | inl p ↦ absurd (
            version_ne (after.sessions (key_of session)) session.version a.1
              (taken_advances after session second later v e p).0)
        | inr p ↦ p
      ] in
    (refused, unwritten-eq_store after session second later v e refused)

-- The sessions of a store, each well formed.
abbrev pub AllValid : UserStore → Type 0
AllValid store = (k : String) (s : ApplicationSession) → store.sessions k ≡ some s → IsValid s

updated-IsValid :
    (session t : ApplicationSession) (id : String)
    → IsValid t
    → IsValid (updated_session session t id)
unfolding updated_session
updated-IsValid session t id v = ground arith

-- Whatever is requested of a well-formed session, in a store of well-formed sessions, the store
-- that is left holds well-formed sessions only.
pub apply_session_event-AllValid :
    (store : UserStore) (session : ApplicationSession) (body : Props) (now : ℕ) (u d : Bool)
    → IsValid session
    → AllValid store
    → AllValid (apply_session_event store session body now u d).1
apply_session_event-AllValid store session body now u d v all k s h =
    elim (apply_session_event-Handled store session body now u d) [
      | inr (_, same) ↦ all k s (rw same at h)
      | inl (_, (id, p, _, _, (e, t, q, r, w))) ↦
          update-IsValid store.sessions _ (updated_session session t id)
            (updated-IsValid session t id (transition-IsValid session e now v r)) all k s
            (rw w.sessions_updated at h)
    ]
