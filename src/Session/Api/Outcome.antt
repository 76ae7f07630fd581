-- ===== src/Session/Api/Outcome.antt =====
-- The outcome of the handler of a session event: the event is taken, over the version of the session
-- that was read, or nothing is written. The laws stand on this.
use intern_notifs.Base.{
  ◌≢◌, ltb, Result-cases, ℕ, ◌≡◌, refl, String, Bool, true, false, ◌⊎◌, none, some, Result, ok, err,
  arith, any, str_eq, Option-cases, inl, inr, ◌==◌, Bool-cases,
}
use intern_notifs.Base.Json.{Props, get, as_str, as_num}
use intern_notifs.Session.Machine.{ApplicationSession, SessionEvent, transition}
use intern_notifs.Session.Request.{parse_session_event}
use intern_notifs.Session.Store.{
  UserStore, row_key, update, may_put, put_application_session, put_application,
}
use intern_notifs.Session.Api.{
  Reply, taken, ApiError, deletion_in_progress, meanwhile, apply_session_event, check_event,
  take_event, write, after_put, mark_applied, updated_session, valid_event_id,
}

-- Was the session written? It was if the event is taken, and also if the write of the application that
-- comes after is refused, since the deletion of the account has begun in between.
abbrev pub is_written : Result ApiError Reply → Bool
is_written (ok (taken _)) = true
is_written (err deletion_in_progress) = true
is_written _ = false

mark_applied-sessions :
    (store t : UserStore) (session : ApplicationSession) (now : ℕ)
    → mark_applied store session now ≡ some t
    → t.sessions ≡ store.sessions
unfolding mark_applied put_application
mark_applied-sessions store t session now h = ground arith

after_put_written :
    (store : UserStore) (session updated : ApplicationSession) (now : ℕ) (d : Bool)
    → (is_written (after_put store session updated now d).0 ≡ true)
      × ((after_put store session updated now d).1.sessions ≡ store.sessions)
unfolding after_put
after_put_written store session updated now d =
    let mid = meanwhile d store session.user_id in
    elim (Option-cases (mark_applied mid session now)) [
      | inl e ↦ ground (arith, e)
      | inr (t, e) ↦ ground (arith, e, mark_applied-sessions mid t session now e)
    ]

-- What a write does: it is taken, over the version that was read, or it changes nothing.
pub record Written (store : UserStore) (session updated : ApplicationSession) (after : UserStore)
    : Type 0 where
  pub version_matched :
      may_put (store.sessions (row_key session.user_id updated.session_id)) (some session.version)
      ≡ true
  pub sessions_updated :
      after.sessions ≡ update store.sessions (row_key session.user_id updated.session_id) updated

abbrev Outcome :
    UserStore → ApplicationSession → ApplicationSession → Result ApiError Reply × UserStore → Type 0
Outcome store session updated (r, after) =
    ((is_written r ≡ true) × Written store session updated after)
    ⊎ ((is_written r ≡ false) × (after ≡ store))

write-Outcome :
    (store : UserStore) (session updated : ApplicationSession) (now : ℕ) (d : Bool)
    → Outcome store session updated (write store session updated now d)
unfolding write put_application_session
write-Outcome store session updated now d =
    elim (Bool-cases (store.deletion_pending session.user_id)) [
      | inl q ↦ inr (rw q refl, rw q refl)
      | inr q ↦
          elim (Bool-cases (
            may_put (store.sessions (row_key session.user_id updated.session_id))
              (some session.version))) [
                | inr p ↦ inr (rw (q, p) refl, rw (q, p) refl)
                | inl p ↦
                    let stored = record store {
                      sessions =
                          update store.sessions (row_key session.user_id updated.session_id)
                            updated;
                    } in
                    let (t, k) = after_put_written stored session updated now d in
                    inl
                      (rw (q, p) t, record { version_matched = p; sessions_updated = rw (q, p) k })
              ]
    ]

-- The event that a taken request stands for, and the session that it has written.
abbrev pub Taken : UserStore → ApplicationSession → Props → String → ℕ → Bool → UserStore → Type 0
Taken store session body id now u after =
    (e : SessionEvent) × (t : ApplicationSession) × (parse_session_event (get "event" body) u
      ≡ ok e)
    × (transition session e now ≡ ok t)
    × Written store session (updated_session session t id) after

abbrev Decided :
    UserStore
    → ApplicationSession
    → Props
    → String
    → ℕ
    → Bool
    → Result ApiError Reply × UserStore
    → Type 0
Decided store session body id now u (r, after) =
    ((is_written r ≡ true) × Taken store session body id now u after)
    ⊎ ((is_written r ≡ false) × (after ≡ store))

take_event-Decided :
    (store : UserStore) (session : ApplicationSession) (body : Props) (id : String) (now : ℕ)
    (u d : Bool)
    → Decided store session body id now u (take_event store session body id now u d)
unfolding take_event
take_event-Decided store session body id now u d =
    elim (Result-cases (parse_session_event (get "event" body) u)) [
      | inr (e, p) ↦ inr (rw (p, take_event) refl, rw (p, take_event) refl)
      | inl (e, p) ↦ elim (Result-cases (transition session e now)) [
        | inr (x, q) ↦ inr (rw (p, take_event, q) refl, rw (p, take_event, q) refl)
        | inl (t, q) ↦ elim (write-Outcome store session (updated_session session t id) now d) [
          | inl (k, w) ↦ inl (rw (p, take_event, q) k, (e, t, p, q, rw (p, take_event, q) w))
          | inr (k, w) ↦ inr (rw (p, take_event, q) k, rw (p, take_event, q) w)
        ]
      ]
    ]

check_event-Decided :
    (store : UserStore) (session : ApplicationSession) (body : Props) (id : String)
    (expected now : ℕ) (u d : Bool)
    → Decided store session body id now u (check_event store session body id expected now u d)
unfolding check_event
check_event-Decided store session body id expected now u d =
    elim (Bool-cases (any (λ x. str_eq x id) session.event_ids)) [
      | inl p ↦ inr (rw p refl, rw p refl)
      | inr p ↦ elim (Bool-cases (expected == session.version)) [
        | inr q ↦ inr (rw (p, q) refl, rw (p, q) refl)
        | inl q ↦ elim (Bool-cases (ltb now session.expires_at)) [
          | inr r ↦ inr (rw (p, q, r) refl, rw (p, q, r) refl)
          | inl r ↦ rw (p, q, r) (take_event-Decided store session body id now u d)
        ]
      ]
    ]

abbrev pub Handled :
    UserStore → ApplicationSession → Props → ℕ → Bool → Result ApiError Reply × UserStore → Type 0
Handled store session body now u (r, after) =
    ((is_written r ≡ true)
      × ((id : String) × (as_str (get "eventId" body) ≡ some id)
          × (valid_event_id id ≡ true)
          × (as_num (get "expectedVersion" body) ≢ none)
          × Taken store session body id now u after))
    ⊎ ((is_written r ≡ false) × (after ≡ store))

pub apply_session_event-Handled :
    (store : UserStore) (session : ApplicationSession) (body : Props) (now : ℕ) (u d : Bool)
    → Handled store session body now u (apply_session_event store session body now u d)
unfolding apply_session_event
apply_session_event-Handled store session body now u d =
    elim (Option-cases (as_str (get "eventId" body))) [
      | inl p ↦ inr (rw (p, apply_session_event) refl, rw (p, apply_session_event) refl)
      | inr (id, p) ↦ elim (Bool-cases (valid_event_id id)) [
        | inr q ↦ inr (rw (p, apply_session_event, q) refl, rw (p, apply_session_event, q) refl)
        | inl q ↦ elim (Option-cases (as_num (get "expectedVersion" body))) [
          | inl r ↦
              inr (rw (p, apply_session_event, q, r) refl, rw (p, apply_session_event, q, r) refl)
          | inr (v, r) ↦ elim (check_event-Decided store session body id v now u d) [
            | inl (k, w) ↦ inl (
              rw (p, apply_session_event, q, r) k,
              (id, p, q, rw r (λ x. cc x), rw (p, apply_session_event, q, r) w),
            )
            | inr (k, w) ↦
                inr (rw (p, apply_session_event, q, r) k, rw (p, apply_session_event, q, r) w)
          ]
        ]
      ]
    ]
