-- ===== src/Session/Api/Replay.antt =====
-- Requests that come twice, and requests of the runner.
use text.Mathlib.TextPositions.{eq_refl}
use mathlib.Core.Path.{subst}
use intern_notifs.Base.{
  ◌≢◌, ℕ, zero, suc, ◌≤◌, ◌≡◌, refl, String, Bool, true, false, none, some, List, [], ◌∷◌, ◌++◌, ok,
  arith, any, ap, sym, ◌∙◌, Option, Bool-cases, ◌-◌, ◌+◌, drop, length, str_eq, Option-cases, inl,
  inr, length-append,
}
use intern_notifs.Base.Json.{Props, get, as_str, as_num}
use intern_notifs.Session.Machine.{ApplicationSession, SessionEvent, transition}
use intern_notifs.Session.Invariant.{is_approved}
use intern_notifs.Session.Request.Laws.{is_user_event, parse_session_event-is_user_event}
use intern_notifs.Session.Store.{UserStore}
use intern_notifs.Session.Api.{
  apply_session_event, updated_session, safe_session, replayed, last_100, check_event,
  valid_event_id,
}
use intern_notifs.Session.Api.Outcome.{is_written}
use intern_notifs.Session.Api.Laws.{stored_of, key_of, transition-ids, unwritten-eq_store}

-- A request for an event of one session: its body, when it comes, whether the user controls it, and
-- whether the deletion of the account begins meanwhile.
pub record Request : Type 0 where
  pub body : Props
  pub at : ℕ
  pub by_user : Bool
  pub deletion : Bool

abbrev answered : UserStore → Option ApplicationSession → Request → UserStore
answered store none r = store
answered store (some s) r = (apply_session_event store s r.body r.at r.by_user r.deletion).1

-- The store after requests for the session of a row, each decided on what is stored then.
unfoldable pub after_requests : UserStore → String → List Request → UserStore
after_requests store key [] = store
after_requests store key (r ∷ rs) = after_requests (answered store (store.sessions key) r) key rs

-- The id is in the list, with at most so many after it.
abbrev Within : String → ℕ → List String → Type 0
Within id k ids =
    (before : List String) × (later : List String) × (ids ≡ before ++ id ∷ later)
    × (length later ≤ k)

drop-append : (n : ℕ) (xs ys : List String) → n ≤ length xs → drop n (xs ++ ys) ≡ drop n xs ++ ys
drop-append zero [] ys h = refl
drop-append zero (x ∷ xs) ys h = refl
drop-append (suc n) [] ys h = absurd (omega arith)
drop-append (suc n) (x ∷ xs) ys h = drop-append n xs ys (omega arith)

-- The last hundred of a list still hold an id that has at most 99 after it.
last_100-Within :
    (id : String) (k : ℕ) (ids : List String)
    → Within id k ids
    → k ≤ 99
    → Within id k (last_100 ids)
last_100-Within id k ids (before, later, e, h) b =
    let n = length ids - 100 in
    let sized : length ids ≡ length before + suc (length later) =
      ap length e ∙ length-append before (id ∷ later) in
    (
      drop n before,
      later,
      ap (drop n) e ∙ drop-append n before (id ∷ later) (omega (arith, sized, h, b)),
      h,
    )

append_assoc : (xs ys zs : List String) → (xs ++ ys) ++ zs ≡ xs ++ (ys ++ zs)
append_assoc [] ys zs = refl
append_assoc (x ∷ xs) ys zs = ap (λ r. x ∷ r) (append_assoc xs ys zs)

append-Within :
    (id new : String) (k : ℕ) (ids : List String)
    → Within id k ids
    → Within id (k + 1) (ids ++ new ∷ [])
append-Within id new k ids (before, later, e, h) = (
  before,
  later ++ new ∷ [],
  rw e (append_assoc before (id ∷ later) (new ∷ [])),
  omega (arith, length-append later (new ∷ []), h),
)

replay_Within :
    (id new : String) (ids : List String) → some id ≡ some new → Within id 0 (ids ++ new ∷ [])
replay_Within id new ids e =
    let same : id ≡ new = cc in
    subst (λ x. Within id 0 (ids ++ x ∷ [])) same (ids, [], refl, omega arith)

any-Within :
    (id : String) (before later : List String)
    → any (λ x. str_eq x id) (before ++ id ∷ later) ≡ true
any-Within id [] later = ground (arith, eq_refl id)
any-Within id (x ∷ before) later = ground (arith, any-Within id before later)

known_replays :
    (store : UserStore) (session : ApplicationSession) (body : Props) (now : ℕ) (u d : Bool)
    (id : String)
    → as_str (get "eventId" body) ≡ some id
    → valid_event_id id ≡ true
    → as_num (get "expectedVersion" body) ≢ none
    → any (λ x. str_eq x id) session.event_ids ≡ true
    → apply_session_event store session body now u d ≡ (ok (replayed (safe_session session)), store)
unfolding apply_session_event check_event
known_replays store session body now u d id p a n h =
    elim (Option-cases (as_num (get "expectedVersion" body))) [
      | inl r ↦ absurd (n r)
      | inr (v, r) ↦ rw (p, apply_session_event, a, r, h) refl
    ]

-- The row holds a session of that row, which has taken at most so many events since the one of the id.
record Recent (key id : String) (k : ℕ) (store : UserStore) : Type 0 where
  session : ApplicationSession
  stored : store.sessions key ≡ some session
  own_row : key_of session ≡ key
  known : Within id k session.event_ids

-- An event that is written leaves such a session, if the list with its own id is one.
written-Recent :
    (id : String) (k : ℕ) (store : UserStore) (s : ApplicationSession) (body : Props) (now : ℕ)
    (u d : Bool)
    → is_written (apply_session_event store s body now u d).0 ≡ true
    → ((new : String)
        → as_str (get "eventId" body) ≡ some new
        → Within id k (s.event_ids ++ new ∷ []))
    → k ≤ 99
    → Recent (key_of s) id k (apply_session_event store s body now u d).1
written-Recent id k store s body now u d h within b =
    let (new, e, t, p, a, n, q, r, w, kept) = stored_of store s body now u d h in
    let ids = transition-ids s e now t r in
    record {
      session = updated_session s t new;
      stored = kept;
      own_row = unfold updated_session in (rw (ids.0, ids.1) refl);
      known =
          unfold updated_session in last_100-Within id k (s.event_ids ++ new ∷ []) (within new p) b;
    }

Within-suc : (id : String) (k : ℕ) (ids : List String) → Within id k ids → Within id (k + 1) ids
Within-suc id k ids (before, later, e, h) = (before, later, e, omega (arith, h))

answered-Recent :
    (id : String) (k : ℕ) (store : UserStore) (s : ApplicationSession) (r : Request)
    → store.sessions (key_of s) ≡ some s
    → Within id k s.event_ids
    → k ≤ 98
    → Recent (key_of s) id (k + 1) (answered store (some s) r)
answered-Recent id k store s r e w b =
    elim (Bool-cases
      (is_written (apply_session_event store s r.body r.at r.by_user r.deletion).0)) [
        | inl h ↦
            written-Recent id (k + 1) store s r.body r.at r.by_user r.deletion h
              (λ new p. append-Within id new k s.event_ids w) (omega (arith, b))
        | inr h ↦ rw (unwritten-eq_store store s r.body r.at r.by_user r.deletion h) (record {
          session = s;
          stored = e;
          own_row = refl;
          known = Within-suc id k s.event_ids w;
        })
      ]

after_requests-Recent :
    (key id : String) (k : ℕ) (store : UserStore) (rs : List Request)
    → Recent key id k store
    → k + length rs ≤ 99
    → Recent key id (k + length rs) (after_requests store key rs)
unfolding after_requests
after_requests-Recent key id k store [] c b = subst (λ n. Recent key id n store) (omega arith) c
after_requests-Recent key id k store (r ∷ rs) c b =
    let next =
      subst (λ j. Recent j id (k + 1) (answered store (some c.session) r)) c.own_row
        (answered-Recent id k store c.session r (rw (c.own_row) (c.stored)) c.known
          (omega (arith, b))) in
    let asked = subst (λ o. Recent key id (k + 1) (answered store o r)) (sym c.stored) next in
    subst (λ n. Recent key id n (after_requests (answered store (store.sessions key) r) key rs))
      (omega arith)
      (after_requests-Recent key id (k + 1) (answered store (store.sessions key) r) rs asked
        (omega (arith, b)))

-- When an event has been written, the same request is answered as a replay of the session that is
-- stored, and writes nothing, after up to 99 other requests for that session, whatever they were and
-- whatever they were answered: at any time, by the user or the runner, also when the session has
-- expired or ended since.
pub taken_then_replayed :
    (store : UserStore) (session : ApplicationSession) (body : Props) (now later : ℕ)
    (u v d e : Bool) (rs : List Request)
    → is_written (apply_session_event store session body now u d).0 ≡ true
    → length rs ≤ 99
    → let after =
        after_requests (apply_session_event store session body now u d).1 (key_of session) rs in
      (t : ApplicationSession) × (after.sessions (key_of session) ≡ some t)
      × (apply_session_event after t body later v e ≡ (ok (replayed (safe_session t)), after))
taken_then_replayed store session body now later u v d e rs h b =
    let (id, ev, t, p, a, n, q, r, w, k) = stored_of store session body now u d h in
    let first =
      written-Recent id 0 store session body now u d h
        (λ new x. replay_Within id new session.event_ids (sym p ∙ x)) (omega arith) in
    let c =
      after_requests-Recent (key_of session) id 0 (apply_session_event store session body now u d).1
        rs first (omega (arith, b)) in
    let (before, since, ids, bound) = c.known in
    (
      c.session,
      c.stored,
      known_replays
          (after_requests (apply_session_event store session body now u d).1 (key_of session) rs)
          c.session body later v e id p a n (rw ids (any-Within id before since)),
    )

-- Only an event of the user leads to a state behind the approval.
transition-is_approved :
    (s : ApplicationSession) (e : SessionEvent) (now : ℕ) (t : ApplicationSession)
    → transition s e now ≡ ok t
    → is_user_event e ≡ false
    → is_approved t.status ≡ false
unfolding transition
transition-is_approved s e now t h k = ground arith

-- Whatever a request that is not controlled by the user asks for, if it is taken then the session
-- that is stored is neither ready for submission nor submitted.
pub runner_never_approves :
    (store : UserStore) (session : ApplicationSession) (body : Props) (now : ℕ) (d : Bool)
    → is_written (apply_session_event store session body now false d).0 ≡ true
    → (t : ApplicationSession) × ((apply_session_event store session body now false d).1.sessions
          (key_of session)
        ≡ some t)
      × (is_approved t.status ≡ false)
runner_never_approves store session body now d h =
    let (id, e, t, p, a, n, q, r, w, k) = stored_of store session body now false d h in
    (
      updated_session session t id,
      k,
      unfold updated_session in
          transition-is_approved session e now t r (parse_session_event-is_user_event _ e q),
    )
